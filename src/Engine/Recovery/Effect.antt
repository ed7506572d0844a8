-- ===== src/Engine/Recovery/Effect.antt =====
-- What logged operations do to one key: they fix its value, set its expiration or leave it. Only
-- `CheckInteger`, which reads the value it changes, is none of these.
use vaylix.Prelude.{
  ℕ, ◌≤◌, ◌≡◌, refl, ap, ◌∙◌, sym, String, Bool, true, false, Option, none, some, List, [], ◌∷◌, ok,
  arith, eq_iff, str_eq, if◌then◌else◌, All,
}
use vaylix.Table.{lookup, insert, remove}
use vaylix.Table.Laws.{lookup-insert, lookup-remove}
use vaylix.Engine.Store
use vaylix.Engine.Store.{
  StoredValue, EngineStore, expired, insert_value_with_version, set_expiration_if_present,
}
use vaylix.Engine.Store.Purge.{live_at}
use vaylix.Engine.State.{WalOperation, run_operation, run_operations}

pub data Effect : Type 0 where
  keep : Effect
  become : Option StoredValue → Effect
  expire_at : Option ℕ → Effect

abbrev pub act : Effect → Option StoredValue → Option StoredValue
act keep x = x
act (become y) x = y
act (expire_at t) none = none
act (expire_at t) (some e) = some (record e { expires_at_ms = t })

-- First `f`, then `g`.
abbrev pub then_effect : Effect → Effect → Effect
then_effect f keep = f
then_effect f (become y) = become y
then_effect keep (expire_at t) = expire_at t
then_effect (become y) (expire_at t) = become (act (expire_at t) y)
then_effect (expire_at u) (expire_at t) = expire_at t

pub act-then_effect :
    (f g : Effect) (x : Option StoredValue) → act (then_effect f g) x ≡ act g (act f x)
act-then_effect f keep x = refl
act-then_effect f (become y) x = refl
act-then_effect keep (expire_at t) x = refl
act-then_effect (become y) (expire_at t) x = refl
act-then_effect (expire_at u) (expire_at t) none = refl
act-then_effect (expire_at u) (expire_at t) (some e) = refl

abbrev effect_of : String → WalOperation → Effect
effect_of j (WalOperation.set k v n) =
    if str_eq k j
    then become (some (record { value = v; expires_at_ms = none; version = n }))
    else keep
effect_of j (WalOperation.delete k) = if str_eq k j then become none else keep
effect_of j (WalOperation.expire k t) = if str_eq k j then expire_at (some t) else keep
effect_of j (WalOperation.persist k) = if str_eq k j then expire_at none else keep
effect_of j WalOperation.clear = become none
effect_of j (WalOperation.check_integer k d) = keep

pub effects_of : String → List WalOperation → Effect
effects_of j [] = keep
effects_of j (op ∷ ops) = then_effect (effect_of j op) (effects_of j ops)

-- No counter is changed.
abbrev pub is_absolute : WalOperation → Bool
is_absolute (WalOperation.check_integer k d) = false
is_absolute _ = true

abbrev pub IsAbsolute : List WalOperation → Type 0
IsAbsolute ops = All (λ op. is_absolute op ≡ true) ops

set_expiration-act :
    (k j : String) (t : ℕ) (s : EngineStore)
    → lookup j (set_expiration_if_present k t s).0
      ≡ act (if str_eq k j then expire_at (some t) else keep) (lookup j s)
unfolding set_expiration_if_present
set_expiration-act k j t s = go (lookup k s) refl
  where
    go :
        (o : Option StoredValue)
        → lookup k s ≡ o
        → lookup j (set_expiration_if_present k t s).0
          ≡ act (if str_eq k j then expire_at (some t) else keep) (lookup j s)
    go none p = ground (arith, eq_iff k j)
    go (some e) p =
        ground (arith, eq_iff k j, lookup-insert k j (record e { expires_at_ms = some t }) s)

clear_expiration-act :
    (k j : String) (s : EngineStore)
    → lookup j (Store.clear_expiration k s).0
      ≡ act (if str_eq k j then expire_at none else keep) (lookup j s)
unfolding Store.clear_expiration
clear_expiration-act k j s = go (lookup k s) refl
  where
    go :
        (o : Option StoredValue)
        → lookup k s ≡ o
        → lookup j (Store.clear_expiration k s).0
          ≡ act (if str_eq k j then expire_at none else keep) (lookup j s)
    go none p = ground (arith, eq_iff k j)
    go (some e) p =
        ground (arith, eq_iff k j, lookup-insert k j (record e { expires_at_ms = none }) s)

run_operation-act :
    (op : WalOperation) (s : EngineStore) (j : String)
    → is_absolute op ≡ true
    → (t : EngineStore) × (run_operation op s ≡ ok t)
      × (lookup j t ≡ act (effect_of j op) (lookup j s))
unfolding run_operation insert_value_with_version
run_operation-act (WalOperation.set k v n) s j h =
    let e : StoredValue = record { value = v; expires_at_ms = none; version = n } in
    (insert k e s, refl, ground (arith, lookup-insert k j e s))
run_operation-act (WalOperation.delete k) s j h =
    (remove k s, refl, ground (arith, lookup-remove k j s))
run_operation-act (WalOperation.expire k t) s j h =
    ((set_expiration_if_present k t s).0, refl, set_expiration-act k j t s)
run_operation-act (WalOperation.persist k) s j h =
    ((Store.clear_expiration k s).0, refl, clear_expiration-act k j s)
run_operation-act WalOperation.clear s j h = ([], refl, unfold lookup in refl)
run_operation-act (WalOperation.check_integer k d) s j h = cc

-- Operations that change no counter succeed on every store, and act key by key.
pub run_operations-act :
    (ops : List WalOperation) (s t : EngineStore) (j : String)
    → IsAbsolute ops
    → run_operations ops s ≡ ok t
    → lookup j t ≡ act (effects_of j ops) (lookup j s)
unfolding run_operations effects_of
run_operations-act [] s t j h r = ground arith
run_operations-act (op ∷ ops) s t j (h, hs) r =
    let (u, p, q) = run_operation-act op s j h in
    run_operations-act ops u t j hs (rw (p, run_operations) at r)
    ∙ ap (act (effects_of j ops)) q
    ∙ sym (act-then_effect (effect_of j op) (effects_of j ops) (lookup j s))

pub run_operations-total :
    (ops : List WalOperation) (s : EngineStore)
    → IsAbsolute ops
    → (t : EngineStore) × (run_operations ops s ≡ ok t)
unfolding run_operations
run_operations-total [] s h = (s, refl)
run_operations-total (op ∷ ops) s (h, hs) =
    let (u, p, _) = run_operation-act op s "" h in
    let (t, q) = run_operations-total ops u hs in (t, rw (p, run_operations) q)

-- Acting again after a purge shows a reader nothing new.
pub act-again :
    (f : Effect) (now_ms later_ms : ℕ) (x : Option StoredValue)
    → now_ms ≤ later_ms
    → live_at later_ms (act f (live_at now_ms (act f x))) ≡ live_at later_ms (act f x)
unfolding expired
act-again keep now_ms later_ms x h = ground arith
act-again (become y) now_ms later_ms x h = ground arith
act-again (expire_at t) now_ms later_ms none h = ground arith
act-again (expire_at t) now_ms later_ms (some e) h = ground arith
