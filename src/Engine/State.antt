-- ===== src/Engine/State.antt =====
-- crates/engine/src/engine/state.rs, and the log entries of crates/engine/src/store/wal.rs: the
-- in-memory state, the operations that the write-ahead log holds, and their application with the
-- rollback of a failed entry.
pub mod Live
pub mod Entry
pub mod Undo
use vaylix.Prelude.{
  ℕ, ◌+◌, ◌-◌, ◌/◌, ◌≡◌, String, Bool, true, false, ◌||◌, Option, none, some, List, [], ◌∷◌, Result,
  ok, err, ◌>>=◌, ltb, leb, if◌then◌else◌,
}
use vaylix.Table.{Table, lookup, contains_key, insert, remove}
use vaylix.Engine.Integer.{ℤ, pos, negsuc, parse_i64, i64_to_string, checked_add}
use vaylix.Engine.Error.{EngineError, invalid_integer_value, numeric_overflow}
use vaylix.Engine.Store
use vaylix.Engine.Store.{
  StoredValue, EngineStore, insert_value_with_version, set_expiration_if_present,
  next_value_version,
}

pub record EngineMetadata : Type 0 where
  pub schema_version : ℕ
  pub created_at_ms : ℕ
  pub updated_at_ms : ℕ
  pub last_snapshot_at_ms : Option ℕ
  pub last_applied_sequence : ℕ

pub record EngineState : Type 0 where
  pub store : EngineStore
  pub metadata : EngineMetadata

pub data WalOperation : Type 0 where
  set : String → List ℕ → ℕ → WalOperation
  delete : String → WalOperation
  expire : String → ℕ → WalOperation
  persist : String → WalOperation
  clear : WalOperation
  check_integer : String → ℤ → WalOperation

pub record WalEntry : Type 0 where
  pub sequence : ℕ
  pub term : ℕ
  pub created_at_ms : ℕ
  pub operations : List WalOperation

-- Removes expired keys; the time of the last change moves only if one was there.
unfoldable pub purge_expired : ℕ → EngineState → EngineState
purge_expired now_ms state =
    let (store, removed) = Store.purge_expired now_ms state.store in
    let touched = record state.metadata { updated_at_ms = now_ms } in
    record { store = store; metadata = if ltb 0 removed then touched else state.metadata }

-- The undo log of one entry: the first value of each key, or the whole store at the first CLEAR.
pub record EntryRollback : Type 0 where
  pub keys : Table (Option StoredValue)
  pub clear_snapshot : Option EngineStore

abbrev pub no_rollback : EntryRollback
no_rollback = record { keys = []; clear_snapshot = none }

abbrev is_some {ℓ} : {A : Type ℓ} → Option A → Bool
is_some none = false
is_some (some _) = true

unfoldable pub remember_key : EngineStore → String → EntryRollback → EntryRollback
remember_key store k plan =
    if is_some plan.clear_snapshot || contains_key k plan.keys
    then plan
    else record plan { keys = insert k (lookup k store) plan.keys }

unfoldable pub remember_clear : EngineStore → EntryRollback → EntryRollback
remember_clear store plan =
    if is_some plan.clear_snapshot then plan else record { keys = []; clear_snapshot = some store }

-- Puts back each remembered value, or removes a key that was not there.
unfoldable pub restore_keys : Table (Option StoredValue) → EngineStore → EngineStore
restore_keys [] store = store
restore_keys ((k, none) ∷ rest) store = restore_keys rest (remove k store)
restore_keys ((k, some e) ∷ rest) store = restore_keys rest (insert k e store)

unfoldable pub restored : EntryRollback → EngineStore → EngineStore
restored plan store = elim plan.clear_snapshot [
  | none ↦ restore_keys plan.keys store
  | some snapshot ↦ snapshot
]

-- What `apply_operation` records before it runs.
unfoldable pub remember_operation : WalOperation → EngineStore → EntryRollback → EntryRollback
remember_operation (set k v n) store plan = remember_key store k plan
remember_operation (delete k) store plan = remember_key store k plan
remember_operation (expire k t) store plan = remember_key store k plan
remember_operation (persist k) store plan = remember_key store k plan
remember_operation clear store plan = remember_clear store plan
remember_operation (check_integer k d) store plan = remember_key store k plan

abbrev pub some_or_zero : Option StoredValue → List ℕ
some_or_zero none = b'0' ∷ []
some_or_zero (some e) = e.value

-- `parse_integer_value` of core.rs, and the same steps in `apply_operation`
unfoldable pub parse_integer_value : String → List ℕ → Result EngineError ℤ
parse_integer_value k v = elim (parse_i64 v) [
  | none ↦ err (invalid_integer_value k v)
  | some n ↦ ok n
]

abbrev pub or_overflow : String → Option ℤ → Result EngineError ℤ
or_overflow k none = err (numeric_overflow k)
or_overflow k (some n) = ok n

-- One operation on the store; an error leaves it as it was.
unfoldable pub run_operation : WalOperation → EngineStore → Result EngineError EngineStore
run_operation (set k v n) store = ok (insert_value_with_version k v n store)
run_operation (delete k) store = ok (remove k store)
run_operation (expire k t) store = ok (set_expiration_if_present k t store).0
run_operation (persist k) store = ok (Store.clear_expiration k store).0
run_operation clear store = ok []
run_operation (check_integer k delta) store = do
  n ← parse_integer_value k (some_or_zero (lookup k store))
  next ← or_overflow k (checked_add n delta)
  ok (insert_value_with_version k (i64_to_string next) (next_value_version (lookup k store)) store)

-- The operations one after the other, up to the first error.
unfoldable pub run_operations : List WalOperation → EngineStore → Result EngineError EngineStore
run_operations [] store = ok store
run_operations (op ∷ ops) store = do store' ← run_operation op store; run_operations ops store'

-- The loop of `apply_entry`: the error that stopped it, if any, the store and the undo log.
unfoldable pub apply_operations :
    List WalOperation
    → EngineStore
    → EntryRollback
    → record { failure : Option EngineError; store : EngineStore; plan : EntryRollback }
apply_operations [] store plan = record { failure = none; store = store; plan = plan }
apply_operations (op ∷ ops) store plan = elim (run_operation op store) [
  | ok store' ↦ apply_operations ops store' (remember_operation op store plan)
  | err e ↦ record { failure = some e; store = store; plan = remember_operation op store plan }
]

-- `apply_entry`: the state comes back beside an error too.
unfoldable pub apply_entry : WalEntry → EngineState → Option EngineError × EngineState
apply_entry entry state =
    let run = apply_operations entry.operations state.store no_rollback in
    elim run.failure [
      | none ↦ (
        none,
        record {
          store = run.store;
          metadata = record state.metadata {
            last_applied_sequence = entry.sequence;
            updated_at_ms = entry.created_at_ms;
          };
        },
      )
      | some e ↦ (some e, record { store = restored run.plan run.store; metadata = state.metadata })
    ]

-- `for entry in &entries { state.apply_entry(entry)?; }`: the recovery of `from_paths_with_options`,
-- of `restore_to_point` and of `replace_replication_suffix` in core.rs.
unfoldable pub replay_entries : List WalEntry → EngineState → Result EngineError EngineState
replay_entries [] state = ok state
replay_entries (e ∷ entries) state =
    let (failure, state') = apply_entry e state in
    let rest = replay_entries entries state' in elim failure [ some x ↦ err x | none ↦ rest ]

-- `remaining_ms.div_ceil(1_000)`
unfoldable pub remaining_seconds : ℕ → ℤ
remaining_seconds remaining_ms = pos ((remaining_ms + 999) / 1_000)

-- -1 for a key with no expiration, -2 for a missing key.
abbrev pub ttl_no_expiry : ℤ
ttl_no_expiry = negsuc 0

abbrev pub ttl_key_missing : ℤ
ttl_key_missing = negsuc 1

-- What `ttl_for` does after its purge; the branch on an expiration that has passed is the source's
-- second check.
unfoldable pub ttl_of : String → ℕ → EngineState → EngineState × ℤ
ttl_of k now_ms state =
    let touched = record state.metadata { updated_at_ms = now_ms } in
    if contains_key k state.store
    then elim (Store.expiration k state.store) [
      | none ↦ (state, ttl_no_expiry)
      | some t ↦
          if leb t now_ms
          then (record { store = remove k state.store; metadata = touched }, ttl_key_missing)
          else (state, remaining_seconds (t - now_ms))
    ]
    else (state, ttl_key_missing)

unfoldable pub ttl_for : String → ℕ → EngineState → EngineState × ℤ
unfolding ttl_of
ttl_for k now_ms state = ttl_of k now_ms (purge_expired now_ms state)
