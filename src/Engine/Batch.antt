-- ===== src/Engine/Batch.antt =====
-- `execute_command_batch` and `execute_transaction` of crates/engine/src/engine/core.rs.
pub mod Commit
pub mod Rollback
pub mod Clear
pub mod Durable
use vaylix.Prelude.{
  ℕ, ◌+◌, String, Bool, true, false, Option, none, some, List, [], ◌∷◌, ◌++◌, Result, ok, err,
  ◌>>=◌, saturating_add, if◌then◌else◌,
}
use vaylix.Engine.Error.{EngineError}
use vaylix.Engine.Store.{EngineStore}
use vaylix.Engine.State.{
  EngineMetadata, EngineState, WalOperation, WalEntry, EntryRollback, no_rollback, remember_key,
  remember_clear, restored, purge_expired,
}
use vaylix.Engine.Command.{Command, TransactionResult}
use vaylix.Engine.Transaction.{Evaluation, evaluate}
use vaylix.Engine.Log.{
  StorageEnv, Engine, next_entry, commit_entry, build_wal_entry_identities, extend_identities,
}

pub record CommandBatchResult : Type 0 where
  pub result : TransactionResult
  pub last_applied_sequence : ℕ

unfoldable pub remember_keys : EngineStore → List String → EntryRollback → EntryRollback
remember_keys store [] plan = plan
remember_keys store (k ∷ keys) plan = remember_keys store keys (remember_key store k plan)

unfoldable pub remember_entries :
    EngineStore → List (String × List ℕ) → EntryRollback → EntryRollback
remember_entries store [] plan = plan
remember_entries store ((k, v) ∷ entries) plan =
    remember_entries store entries (remember_key store k plan)

-- `BatchRollback` is the undo log of an entry with the metadata beside it.
unfoldable pub remember_command : EngineStore → Command → EntryRollback → EntryRollback
unfolding remember_keys remember_entries
remember_command store (Command.set k v options) plan = remember_key store k plan
remember_command store (Command.set_nx k v) plan = remember_key store k plan
remember_command store (Command.get_del k) plan = remember_key store k plan
remember_command store (Command.get_ex k x p) plan = remember_key store k plan
remember_command store (Command.expire k n) plan = remember_key store k plan
remember_command store (Command.persist k) plan = remember_key store k plan
remember_command store (Command.incr k) plan = remember_key store k plan
remember_command store (Command.decr k) plan = remember_key store k plan
remember_command store (Command.mset entries) plan = remember_entries store entries plan
remember_command store (Command.delete keys) plan = remember_keys store keys plan
remember_command store (Command.mget keys) plan = remember_keys store keys plan
remember_command store (Command.rename source destination) plan =
    remember_key store destination (remember_key store source plan)
remember_command store (Command.rename_nx source destination) plan =
    remember_key store destination (remember_key store source plan)
remember_command store Command.clear plan = remember_clear store plan
remember_command store _ plan = plan

-- What the loop over the commands has built when it ends or stops at an error.
pub record BatchRun : Type 0 where
  pub failure : Option EngineError
  pub state : EngineState
  pub plan : EntryRollback
  pub entries : List WalEntry
  pub results : List CommandBatchResult

unfoldable pub is_empty {ℓ} : {A : Type ℓ} → List A → Bool
is_empty [] = true
is_empty (x ∷ xs) = false

-- The log entry of a command that changed something.
abbrev pub batch_entry : ℕ → ℕ → ℕ → List WalOperation → WalEntry
batch_entry term now_ms sequence ops = record {
  sequence = sequence;
  term = term;
  created_at_ms = now_ms;
  operations = ops;
}

-- The state after a command: an entry moves the sequence and the time of the last change.
unfoldable pub stamped : ℕ → ℕ → List WalOperation → EngineState → EngineState
stamped now_ms sequence [] state = state
stamped now_ms sequence (op ∷ ops) state =
    let metadata = state.metadata in
    record state {
      metadata = record metadata { last_applied_sequence = sequence; updated_at_ms = now_ms };
    }

-- `if !operations.is_empty() { … entries.push(entry); }`
unfoldable pub push_entry : List WalOperation → WalEntry → List WalEntry → List WalEntry
push_entry [] entry rest = rest
push_entry (op ∷ ops) entry rest = entry ∷ rest

unfoldable pub run_batch : ℕ → ℕ → List Command → EngineState → EntryRollback → ℕ → ℕ → BatchRun
unfolding stamped push_entry remember_command
run_batch term now_ms [] state plan next visible = record {
  failure = none;
  state = state;
  plan = plan;
  entries = [];
  results = [];
}
run_batch term now_ms (c ∷ commands) state plan next visible =
    let plan' = remember_command state.store c plan in
    let run = evaluate c now_ms state in
    let quiet = is_empty run.operations in
    let visible' = if quiet then visible else next in
    elim run.answer [
      | err e ↦ record {
        failure = some e;
        state = run.state;
        plan = plan';
        entries = [];
        results = [];
      }
      | ok result ↦
          let rest =
            run_batch term now_ms commands (stamped now_ms next run.operations run.state) plan'
              (if quiet then next else saturating_add next 1) visible' in
          record rest {
            entries =
                push_entry run.operations (batch_entry term now_ms next run.operations)
                  rest.entries;
            results = record { result = result; last_applied_sequence = visible' } ∷ rest.results;
          }
    ]

unfoldable pub rolled_back : EntryRollback → EngineMetadata → EngineState → EngineState
rolled_back plan metadata state = record { store = restored plan state.store; metadata = metadata }

-- The entries of a finished batch are written; a failed write rolls the state back. An error of the
-- checksums comes before the write and has no rollback in the source.
unfoldable pub write_batch :
    StorageEnv
    → EngineMetadata
    → BatchRun
    → Engine
    → Result EngineError (List CommandBatchResult) × Engine
unfolding rolled_back
write_batch env metadata run engine =
    let moved = record engine { state = run.state } in
    elim (build_wal_entry_identities env run.entries) [
      | err e ↦ (err e, moved)
      | ok ids ↦ elim (env.append_batch run.entries) [
        | some e ↦ (err e, record engine { state = rolled_back run.plan metadata run.state })
        | none ↦ (
          ok run.results,
          record moved {
            wal_entries = engine.wal_entries ++ run.entries;
            wal_entry_identities = extend_identities engine.wal_entry_identities ids;
          },
        )
      ]
    ]

-- The loop over the commands of a batch, from the purged state.
unfoldable pub start_batch : ℕ → List Command → Engine → BatchRun
unfolding run_batch
start_batch now_ms commands engine =
    let purged = purge_expired now_ms engine.state in
    let last = purged.metadata.last_applied_sequence in
    run_batch engine.current_consensus_term now_ms commands purged no_rollback
      (saturating_add last 1) last

-- The end of a batch: a failed command rolls the state back.
unfoldable pub finish_batch :
    StorageEnv
    → EngineMetadata
    → BatchRun
    → Engine
    → Result EngineError (List CommandBatchResult) × Engine
unfolding write_batch is_empty
finish_batch env metadata run engine = elim run.failure [
  | some e ↦ (err e, record engine { state = rolled_back run.plan metadata run.state })
  | none ↦
      if is_empty run.entries
      then (ok run.results, record engine { state = run.state })
      else write_batch env metadata run engine
]

unfoldable pub execute_command_batch :
    StorageEnv → ℕ → List Command → Engine → Result EngineError (List CommandBatchResult) × Engine
unfolding start_batch finish_batch
execute_command_batch env now_ms commands engine =
    finish_batch env (purge_expired now_ms engine.state).metadata
      (start_batch now_ms commands engine) engine

-- The queue of a transaction, on a copy of the state: the answers, the copy and all operations.
unfoldable pub run_queue :
    ℕ
    → List Command
    → EngineState
    → Result EngineError (List TransactionResult × EngineState × List WalOperation)
run_queue now_ms [] working = ok ([], working, [])
run_queue now_ms (c ∷ commands) working = do
  let run = evaluate c now_ms working
  result ← run.answer
  (results, working', ops) ← run_queue now_ms commands run.state
  ok (result ∷ results, working', run.operations ++ ops)

abbrev pub with_results {ℓ} :
    {A : Type ℓ} → A → Result EngineError (Unit {0}) × Engine → Result EngineError A × Engine
with_results results (ok _, engine) = (ok results, engine)
with_results results (err e, engine) = (err e, engine)

-- `now_ms` is read when the transaction starts, `entry_ms` when its entry is built.
unfoldable pub execute_transaction :
    StorageEnv
    → ℕ
    → ℕ
    → List Command
    → Engine
    → Result EngineError (List TransactionResult) × Engine
unfolding run_queue is_empty next_entry commit_entry
execute_transaction env now_ms entry_ms commands engine =
    let purged = record engine { state = purge_expired now_ms engine.state } in
    elim (run_queue now_ms commands purged.state) [
      | err e ↦ (err e, purged)
      | ok (results, working, ops) ↦
          if is_empty ops
          then (ok results, record engine { state = working })
          else with_results results (commit_entry env (next_entry entry_ms ops purged) purged)
    ]
