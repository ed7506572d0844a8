-- ===== src/Engine/Store/Purge.antt =====
-- `purge_expired` of crates/engine/src/engine/store.rs: afterwards no expired value is left, every
-- other value is as it was, and a purged store is not changed by a purge at the same time.
use vaylix.Prelude.{
  ℕ, ◌+◌, ◌≡◌, refl, String, Bool, true, false, ◌||◌, ◌&&◌, not, Option, none, some, List, [], ◌∷◌,
  arith, eq_iff, str_eq, if◌then◌else◌,
}
use vaylix.Table.{lookup, contains_key, insert, remove}
use vaylix.Table.Laws.{lookup-remove, IsFresh, IsMap, IsMap-remove}
use vaylix.Engine.Store.{StoredValue, EngineStore, expired, expired_keys, remove_all, purge_expired}

-- No value of the store has expired.
abbrev pub IsLive : ℕ → EngineStore → Type 0
IsLive now_ms [] = Unit
IsLive now_ms ((k, e) ∷ s) = (expired now_ms e ≡ false) × IsLive now_ms s

abbrev member : String → List String → Bool
member k [] = false
member k (j ∷ ks) = str_eq j k || member k ks

-- Every expired value of the store has its key in the list.
abbrev Covers : ℕ → List String → EngineStore → Type 0
Covers now_ms ks [] = Unit
Covers now_ms ks ((k, e) ∷ s) =
    ((expired now_ms e && not (member k ks)) ≡ false) × Covers now_ms ks s

Covers-cons :
    (now_ms : ℕ) (k : String) (ks : List String) (s : EngineStore)
    → Covers now_ms ks s
    → Covers now_ms (k ∷ ks) s
Covers-cons now_ms k ks [] h = tt
Covers-cons now_ms k ks ((j, e) ∷ s) h = ground (arith, Covers-cons now_ms k ks s)

Covers-if :
    (now_ms : ℕ) (b : Bool) (k : String) (ks : List String) (s : EngineStore)
    → Covers now_ms ks s
    → Covers now_ms (if b then k ∷ ks else ks) s
Covers-if now_ms true k ks s h = Covers-cons now_ms k ks s h
Covers-if now_ms false k ks s h = h

expired_keys-Covers : (now_ms : ℕ) (s : EngineStore) → Covers now_ms (expired_keys now_ms s) s
unfolding expired_keys
expired_keys-Covers now_ms [] = tt
expired_keys-Covers now_ms ((k, e) ∷ s) = (
  ground (arith, eq_iff k k),
  Covers-if now_ms (expired now_ms e) k _ s (expired_keys-Covers now_ms s),
)

Covers-remove :
    (now_ms : ℕ) (k : String) (ks : List String) (s : EngineStore)
    → Covers now_ms (k ∷ ks) s
    → Covers now_ms ks (remove k s)
unfolding remove
Covers-remove now_ms k ks [] h = tt
Covers-remove now_ms k ks ((j, e) ∷ s) h =
    ground (arith, Covers-remove now_ms k ks s, eq_iff k j, eq_iff j k)

Covers-nil : (now_ms : ℕ) (s : EngineStore) → Covers now_ms [] s → IsLive now_ms s
Covers-nil now_ms [] h = tt
Covers-nil now_ms ((k, e) ∷ s) h = ground (arith, Covers-nil now_ms s)

remove_all-IsLive :
    (now_ms : ℕ) (ks : List String) (s : EngineStore) (n : ℕ)
    → Covers now_ms ks s
    → IsLive now_ms (remove_all ks s n).0
unfolding remove_all
remove_all-IsLive now_ms [] s n h = Covers-nil now_ms s h
remove_all-IsLive now_ms (k ∷ ks) s n h =
    remove_all-IsLive now_ms ks (remove k s) _ (Covers-remove now_ms k ks s h)

-- After a purge no value of the store has expired at its time.
pub purge_expired-IsLive : (now_ms : ℕ) (s : EngineStore) → IsLive now_ms (purge_expired now_ms s).0
unfolding purge_expired
purge_expired-IsLive now_ms s =
    remove_all-IsLive now_ms (expired_keys now_ms s) s 0 (expired_keys-Covers now_ms s)

expired_keys-IsLive : (now_ms : ℕ) (s : EngineStore) → IsLive now_ms s → expired_keys now_ms s ≡ []
unfolding expired_keys
expired_keys-IsLive now_ms [] h = refl
expired_keys-IsLive now_ms ((k, e) ∷ s) h = ground (arith, expired_keys-IsLive now_ms s)

-- A store with nothing expired is not changed.
pub purge_expired-live :
    (now_ms : ℕ) (s : EngineStore) → IsLive now_ms s → purge_expired now_ms s ≡ (s, 0)
unfolding purge_expired
purge_expired-live now_ms s h = rw (expired_keys-IsLive now_ms s h) (unfold remove_all in refl)

-- What keeps a store live: a value that is live itself, and removals.
pub IsLive-insert :
    (now_ms : ℕ) (k : String) (e : StoredValue) (s : EngineStore)
    → expired now_ms e ≡ false
    → IsLive now_ms s
    → IsLive now_ms (insert k e s)
unfolding insert
IsLive-insert now_ms k e [] he h = (he, tt)
IsLive-insert now_ms k e ((j, d) ∷ s) he h = ground (arith, IsLive-insert now_ms k e s he)

pub IsLive-remove :
    (now_ms : ℕ) (k : String) (s : EngineStore) → IsLive now_ms s → IsLive now_ms (remove k s)
unfolding remove
IsLive-remove now_ms k [] h = tt
IsLive-remove now_ms k ((j, d) ∷ s) h = ground (arith, IsLive-remove now_ms k s)

pub IsLive-lookup :
    (now_ms : ℕ) (k : String) (s : EngineStore) {e : StoredValue}
    → IsLive now_ms s
    → lookup k s ≡ some e
    → expired now_ms e ≡ false
unfolding lookup
IsLive-lookup now_ms k [] h p = cc
IsLive-lookup now_ms k ((j, d) ∷ s) {e} h p = ground (arith, IsLive-lookup now_ms k s {e = e})

lookup-remove_all :
    (ks : List String) (s : EngineStore) (n : ℕ) (j : String)
    → lookup j (remove_all ks s n).0 ≡ (if member j ks then none else lookup j s)
unfolding remove_all
lookup-remove_all [] s n j = refl
lookup-remove_all (k ∷ ks) s n j = ground (
  arith,
  lookup-remove_all ks (remove k s) (if contains_key k s then n + 1 else n) j,
  lookup-remove k j s,
)

-- The value that a reader at a given time sees.
abbrev pub live_at : ℕ → Option StoredValue → Option StoredValue
live_at now_ms none = none
live_at now_ms (some e) = if expired now_ms e then none else some e

member-IsFresh :
    (now_ms : ℕ) (k : String) (s : EngineStore)
    → IsFresh k s
    → member k (expired_keys now_ms s) ≡ false
unfolding expired_keys
member-IsFresh now_ms k [] h = refl
member-IsFresh now_ms k ((j, d) ∷ s) h = ground (arith, member-IsFresh now_ms k s)

member-expired_keys :
    (now_ms : ℕ) (k : String) (s : EngineStore)
    → IsMap s
    → (if member k (expired_keys now_ms s) then none else lookup k s) ≡ live_at now_ms (lookup k s)
unfolding expired_keys lookup
member-expired_keys now_ms k [] h = refl
member-expired_keys now_ms k ((j, d) ∷ s) h =
    ground (arith, member-expired_keys now_ms k s, member-IsFresh now_ms j s, eq_iff j k)

-- A purge removes exactly the expired values, from a store with distinct keys.
pub lookup-purge_expired :
    (now_ms : ℕ) (k : String) (s : EngineStore)
    → IsMap s
    → lookup k (purge_expired now_ms s).0 ≡ live_at now_ms (lookup k s)
unfolding purge_expired
lookup-purge_expired now_ms k s h =
    rw (lookup-remove_all (expired_keys now_ms s) s 0 k) (member-expired_keys now_ms k s h)

remove_all-IsMap :
    (ks : List String) (s : EngineStore) (n : ℕ) → IsMap s → IsMap (remove_all ks s n).0
unfolding remove_all
remove_all-IsMap [] s n h = h
remove_all-IsMap (k ∷ ks) s n h = remove_all-IsMap ks (remove k s) _ (IsMap-remove k s h)

pub purge_expired-IsMap :
    (now_ms : ℕ) (s : EngineStore) → IsMap s → IsMap (purge_expired now_ms s).0
unfolding purge_expired
purge_expired-IsMap now_ms s h = remove_all-IsMap (expired_keys now_ms s) s 0 h
