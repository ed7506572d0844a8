-- ===== src/Engine/State/Undo.antt =====
-- The undo log of crates/engine/src/engine/state.rs, which `BatchRollback` of core.rs keeps in the same
-- way: what it brings back, and the entries that fail.
use vaylix.Prelude.{
  ℕ, ◌≡◌, refl, ◌∙◌, String, Bool, true, false, ◌||◌, Option, none, some, List, [], ◌∷◌, Result, ok,
  err, ◌>>=◌, >>=-eq-ok, arith, eq_iff, str_eq, All,
}
use vaylix.Table.{Table, lookup, contains_key, insert, remove}
use vaylix.Table.Laws.{lookup-insert, lookup-remove, lookup-IsFresh, IsMap, IsMap-insert}
use vaylix.Engine.Integer.{ℤ, checked_add, i64_to_string}
use vaylix.Engine.Error.{EngineError}
use vaylix.Engine.Store
use vaylix.Engine.Store.{
  StoredValue, EngineStore, insert_value_with_version, set_expiration_if_present,
  next_value_version,
}
use vaylix.Engine.State.{
  EngineState, WalOperation, WalEntry, EntryRollback, no_rollback, remember_key, restore_keys,
  restored, remember_operation, run_operation, apply_operations, apply_entry, parse_integer_value,
  or_overflow, some_or_zero,
}

-- What a rollback puts under a key: the remembered value, or what is there.
abbrev undone : Option (Option StoredValue) → Option StoredValue → Option StoredValue
undone none there = there
undone (some old) there = old

-- The undo log leads from the store `s` back to the store `s₀`.
pub record IsUndo (s₀ s : EngineStore) (plan : EntryRollback) : Type 0 where
  pub cleared : plan.clear_snapshot ≡ none
  pub distinct : IsMap plan.keys
  pub back : (j : String) → undone (lookup j plan.keys) (lookup j s) ≡ lookup j s₀

lookup-restore_keys :
    (keys : Table (Option StoredValue)) (s : EngineStore) (j : String)
    → IsMap keys
    → lookup j (restore_keys keys s) ≡ undone (lookup j keys) (lookup j s)
unfolding restore_keys lookup
lookup-restore_keys [] s j h = refl
lookup-restore_keys ((k, none) ∷ rest) s j (fresh, h) = ground (
  arith,
  lookup-restore_keys rest (remove k s) j h,
  lookup-remove k j s,
  lookup-IsFresh k rest fresh,
  eq_iff k j,
)
lookup-restore_keys ((k, some e) ∷ rest) s j (fresh, h) = ground (
  arith,
  lookup-restore_keys rest (insert k e s) j h,
  lookup-insert k j e s,
  lookup-IsFresh k rest fresh,
  eq_iff k j,
)

pub IsUndo-restored :
    {s₀ s : EngineStore} {plan : EntryRollback}
    → IsUndo s₀ s plan
    → (j : String) → lookup j (restored plan s) ≡ lookup j s₀
unfolding restored
IsUndo-restored {s₀} {s} {plan} h j =
    rw (h.cleared, restored) (lookup-restore_keys plan.keys s j h.distinct ∙ h.back j)

-- Remembering a key.
pub contains-remember_key :
    (s : EngineStore) (k j : String) (plan : EntryRollback)
    → plan.clear_snapshot ≡ none
    → contains_key j (remember_key s k plan).keys ≡ (str_eq k j || contains_key j plan.keys)
unfolding remember_key contains_key
contains-remember_key s k j plan c =
    ground (arith, lookup-insert k j (lookup k s) plan.keys, eq_iff k j)

pub remember_key-IsUndo :
    {s₀ s : EngineStore} {plan : EntryRollback} (k : String)
    → IsUndo s₀ s plan
    → IsUndo s₀ s (remember_key s k plan)
unfolding remember_key contains_key
remember_key-IsUndo {s₀} {s} {plan} k h = record {
  cleared = ground (arith, h.cleared);
  distinct = ground (arith, h.distinct, IsMap-insert k (lookup k s) plan.keys h.distinct);
  back = λ j.
      ground (arith, h.back j, h.cleared, lookup-insert k j (lookup k s) plan.keys, eq_iff k j);
}

-- A change of keys that are all remembered.
pub IsUndo-change :
    {s₀ s : EngineStore} (t : EngineStore) {plan : EntryRollback}
    → IsUndo s₀ s plan
    → ((j : String) → contains_key j plan.keys ≡ false → lookup j t ≡ lookup j s)
    → IsUndo s₀ t plan
unfolding contains_key
IsUndo-change {s₀} {s} t {plan} h same = record {
  cleared = h.cleared;
  distinct = h.distinct;
  back = λ j. ground (arith, h.back j, same j);
}

-- What one operation leaves alone: every key but its own.
abbrev operation_key : WalOperation → Option String
operation_key (WalOperation.set k v n) = some k
operation_key (WalOperation.delete k) = some k
operation_key (WalOperation.expire k t) = some k
operation_key (WalOperation.persist k) = some k
operation_key WalOperation.clear = none
operation_key (WalOperation.check_integer k d) = some k

set_expiration-frame :
    (k j : String) (t : ℕ) (s : EngineStore)
    → str_eq k j ≡ false
    → lookup j (set_expiration_if_present k t s).0 ≡ lookup j s
unfolding set_expiration_if_present
set_expiration-frame k j t s h = go (lookup k s) refl
  where
    go :
        (o : Option StoredValue)
        → lookup k s ≡ o
        → lookup j (set_expiration_if_present k t s).0 ≡ lookup j s
    go none p = ground arith
    go (some e) p = ground (arith, lookup-insert k j (record e { expires_at_ms = some t }) s)

clear_expiration-frame :
    (k j : String) (s : EngineStore)
    → str_eq k j ≡ false
    → lookup j (Store.clear_expiration k s).0 ≡ lookup j s
unfolding Store.clear_expiration
clear_expiration-frame k j s h = go (lookup k s) refl
  where
    go :
        (o : Option StoredValue)
        → lookup k s ≡ o
        → lookup j (Store.clear_expiration k s).0 ≡ lookup j s
    go none p = ground arith
    go (some e) p = ground (arith, lookup-insert k j (record e { expires_at_ms = none }) s)

run_operation-frame :
    (op : WalOperation) (k j : String) (s t : EngineStore)
    → operation_key op ≡ some k
    → run_operation op s ≡ ok t
    → str_eq k j ≡ false
    → lookup j t ≡ lookup j s
unfolding run_operation insert_value_with_version
run_operation-frame (WalOperation.set k v n) i j s t o r h = ground (
  arith,
  lookup-insert k j (record { value = v; expires_at_ms = none; version = n }) s,
  eq_iff k i,
)
run_operation-frame (WalOperation.delete k) i j s t o r h = ground (arith, lookup-remove k j s)
run_operation-frame (WalOperation.expire k u) i j s t o r h =
    ground (arith, set_expiration-frame k j u s)
run_operation-frame (WalOperation.persist k) i j s t o r h =
    ground (arith, clear_expiration-frame k j s)
run_operation-frame WalOperation.clear i j s t o r h = cc
run_operation-frame (WalOperation.check_integer k d) i j s t o r h =
    let new : ℤ → StoredValue = λ m. record {
      value = i64_to_string m;
      expires_at_ms = none;
      version = next_value_version (lookup k s);
    } in
    let write : ℤ → Result EngineError EngineStore = λ m. ok (insert k (new m) s) in
    let (n, _, p) =
      >>=-eq-ok (parse_integer_value k (some_or_zero (lookup k s)))
        (λ n. or_overflow k (checked_add n d) >>= write) r in
    let (m, _, q) = >>=-eq-ok (or_overflow k (checked_add n d)) write p in
    ground (arith, lookup-insert k j (new m) s)

-- No operation of the entry is CLEAR.
abbrev pub is_keyed : WalOperation → Bool
is_keyed WalOperation.clear = false
is_keyed _ = true

remember_operation-key :
    (op : WalOperation) (s : EngineStore) (plan : EntryRollback)
    → is_keyed op ≡ true
    → (k : String) × (operation_key op ≡ some k)
      × (remember_operation op s plan ≡ remember_key s k plan)
unfolding remember_operation
remember_operation-key (WalOperation.set k v n) s plan h = (k, refl, refl)
remember_operation-key (WalOperation.delete k) s plan h = (k, refl, refl)
remember_operation-key (WalOperation.expire k t) s plan h = (k, refl, refl)
remember_operation-key (WalOperation.persist k) s plan h = (k, refl, refl)
remember_operation-key WalOperation.clear s plan h = cc
remember_operation-key (WalOperation.check_integer k d) s plan h = (k, refl, refl)

operation-IsUndo :
    {s₀ s : EngineStore} (op : WalOperation) (t : EngineStore) {plan : EntryRollback}
    → is_keyed op ≡ true
    → run_operation op s ≡ ok t
    → IsUndo s₀ s plan
    → IsUndo s₀ t (remember_operation op s plan)
operation-IsUndo {s₀} {s} op t {plan} h r u =
    let (k, o, e) = remember_operation-key op s plan h in
    rw (e) (
      IsUndo-change t (remember_key-IsUndo k u) λ j absent.
        run_operation-frame op k j s t o r
          (ground (arith, contains-remember_key s k j plan u.cleared)))

failed-IsUndo :
    {s₀ s : EngineStore} (op : WalOperation) {plan : EntryRollback}
    → is_keyed op ≡ true
    → IsUndo s₀ s plan
    → IsUndo s₀ s (remember_operation op s plan)
failed-IsUndo {s₀} {s} op {plan} h u =
    let (k, o, e) = remember_operation-key op s plan h in rw (e) (remember_key-IsUndo k u)

apply_operations-IsUndo :
    {s₀ : EngineStore} (ops : List WalOperation) (s : EngineStore) (plan : EntryRollback)
    → All (λ op. is_keyed op ≡ true) ops
    → IsUndo s₀ s plan
    → IsUndo s₀ (apply_operations ops s plan).store (apply_operations ops s plan).plan
unfolding apply_operations
apply_operations-IsUndo [] s plan h u = u
apply_operations-IsUndo {s₀} (op ∷ ops) s plan (h, hs) u = go (run_operation op s) refl λ t r.
    apply_operations-IsUndo ops t (remember_operation op s plan) hs (operation-IsUndo op t h r u)
  where
    go :
        (r : Result EngineError EngineStore)
        → run_operation op s ≡ r
        → ((t : EngineStore)
            → run_operation op s ≡ ok t
            → IsUndo s₀
                (apply_operations ops t (remember_operation op s plan)).store
                (apply_operations ops t (remember_operation op s plan)).plan)
        → IsUndo s₀
            (apply_operations (op ∷ ops) s plan).store
            (apply_operations (op ∷ ops) s plan).plan
    go (err e) p ih = rw (p, apply_operations) (failed-IsUndo op h u)
    go (ok t) p ih = rw (p, apply_operations) (ih t p)

-- An entry with no CLEAR that fails leaves every key and the metadata as they were.
pub apply_entry-atomic :
    (entry : WalEntry) (state : EngineState) (e : EngineError) (j : String)
    → All (λ op. is_keyed op ≡ true) entry.operations
    → (apply_entry entry state).0 ≡ some e
    → (lookup j (apply_entry entry state).1.store ≡ lookup j state.store)
      × ((apply_entry entry state).1.metadata ≡ state.metadata)
unfolding apply_entry
apply_entry-atomic entry state e j h f =
    let start : IsUndo state.store state.store no_rollback = record {
      cleared = refl;
      distinct = tt;
      back = λ i. unfold lookup in refl;
    } in
    ground (
      arith,
      IsUndo-restored (apply_operations-IsUndo entry.operations state.store no_rollback h start) j,
    )
