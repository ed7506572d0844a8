-- ===== src/Engine/Batch/Clear.antt =====
-- CLEAR inside a batch that fails, in crates/engine/src/engine/core.rs: `remember_clear` snapshots a
-- store that earlier commands of the batch have changed, and drops what was remembered of it.
use vaylix.Prelude.{
  ℕ, ◌≡◌, refl, ap, ◌∙◌, String, true, none, some, List, [], ◌∷◌, ok, err, arith, str_eq_refl,
  if◌then◌else◌, saturating_add,
}
use vaylix.Table.{lookup, contains_key}
use vaylix.Table.Laws.{lookup-insert}
use vaylix.Engine.Error.{EngineError, unsupported_command}
use vaylix.Engine.Store.{EngineStore, get_value, insert_value_with_version, next_value_version}
use vaylix.Engine.State.{
  WalOperation, EngineMetadata, EngineState, EntryRollback, no_rollback, remember_key,
  remember_clear, restored, purge_expired,
}
use vaylix.Engine.State.Live.{purge_expired-state_IsLive, purge_expired-state_live}
use vaylix.Engine.Command.{Command, AdminCommand, TransactionResult}
use vaylix.Engine.Transaction.{evaluate, run_command, run_set_nx, run_clear, answered}
use vaylix.Engine.Log.{StorageEnv, Engine}
use vaylix.Engine.Batch.{
  is_empty, BatchRun, remember_command, stamped, run_batch, rolled_back, start_batch, finish_batch,
  execute_command_batch,
}

-- The plan of a batch once a CLEAR has been remembered.
abbrev cleared_plan : EngineStore → EntryRollback
cleared_plan s = record { keys = []; clear_snapshot = some s }

-- The end of a batch: CLEAR, then a command that fails.
clear-answer :
    (now_ms : ℕ) (state : EngineState)
    → (evaluate Command.clear now_ms state).answer ≡ ok TransactionResult.ok
unfolding evaluate run_command run_clear answered
clear-answer now_ms state = go (purge_expired now_ms state).store refl
  where
    go :
        (s : EngineStore)
        → (purge_expired now_ms state).store ≡ s
        → (evaluate Command.clear now_ms state).answer ≡ ok TransactionResult.ok
    go [] p = rw (p, run_clear) refl
    go (x ∷ s) p = rw (p, run_clear) refl

module _ (term now_ms : ℕ) where
  -- A command that is answered, and the rest of the batch.
  run_batch-step :
      (c : Command) (commands : List Command) (state : EngineState) (plan : EntryRollback)
      (next visible : ℕ) (r : TransactionResult)
      → (evaluate c now_ms state).answer ≡ ok r
      → (n v : ℕ) × ((run_batch term now_ms (c ∷ commands) state plan next visible).failure
          ≡ (run_batch term now_ms commands
              (stamped now_ms next
                (evaluate c now_ms state).operations
                (evaluate c now_ms state).state)
              (remember_command state.store c plan)
              n
              v).failure)
        × ((run_batch term now_ms (c ∷ commands) state plan next visible).plan
            ≡ (run_batch term now_ms commands
                (stamped now_ms next
                  (evaluate c now_ms state).operations
                  (evaluate c now_ms state).state)
                (remember_command state.store c plan)
                n
                v).plan)
  unfolding run_batch
  run_batch-step c commands state plan next visible r p =
      let quiet = is_empty (evaluate c now_ms state).operations in
      (
        if quiet then next else saturating_add next 1,
        if quiet then visible else next,
        rw (p, run_batch) refl,
        rw (p, run_batch) refl,
      )

  module _ (a : AdminCommand) where
    admin-batch :
        (state : EngineState) (plan : EntryRollback) (next visible : ℕ)
        → ((run_batch term now_ms (Command.administrative a ∷ []) state plan next visible).failure
            ≡ some unsupported_command)
          × ((run_batch term now_ms (Command.administrative a ∷ []) state plan next visible).plan
              ≡ plan)
    unfolding run_batch evaluate run_command remember_command
    admin-batch state plan next visible = (refl, refl)

    clear-batch :
        (state : EngineState) (plan : EntryRollback) (next visible : ℕ)
        → plan.clear_snapshot ≡ none
        → ((run_batch term now_ms
              (Command.clear ∷ Command.administrative a ∷ [])
              state
              plan
              next
              visible).failure
            ≡ some unsupported_command)
          × ((run_batch term now_ms
                (Command.clear ∷ Command.administrative a ∷ [])
                state
                plan
                next
                visible).plan
              ≡ cleared_plan state.store)
    unfolding remember_command remember_clear
    clear-batch state plan next visible h =
        let (n, v, f, p) =
          run_batch-step Command.clear (Command.administrative a ∷ []) state plan next visible _
            (clear-answer now_ms state) in
        let (f', p') = admin-batch _ (remember_command state.store Command.clear plan) n v in
        (f ∙ f', p ∙ p' ∙ ground (arith, h))

-- SETNX of a key that is not there.
set_nx-absent :
    (now_ms : ℕ) (k : String) (v : List ℕ) (state : EngineState)
    → lookup k (purge_expired now_ms state).store ≡ none
    → ((evaluate (Command.set_nx k v) now_ms state).answer ≡ ok (TransactionResult.boolean true))
      × (get_value k (evaluate (Command.set_nx k v) now_ms state).state.store ≡ some v)
unfolding evaluate run_command run_set_nx answered contains_key get_value insert_value_with_version
set_nx-absent now_ms k v state h = ground (
  arith,
  lookup-insert k k (record { value = v; expires_at_ms = none; version = next_value_version none })
      (purge_expired now_ms state).store,
  str_eq_refl k,
)

get_value-stamped :
    (k : String) (now_ms next : ℕ) (ops : List WalOperation) (state : EngineState)
    → get_value k (stamped now_ms next ops state).store ≡ get_value k state.store
unfolding stamped
get_value-stamped k now_ms next [] state = refl
get_value-stamped k now_ms next (op ∷ ops) state = refl

finish_batch-failure :
    (env : StorageEnv) (m : EngineMetadata) (run : BatchRun) (engine : Engine) (e : EngineError)
    → run.failure ≡ some e
    → ((finish_batch env m run engine).0 ≡ err e)
      × ((finish_batch env m run engine).1.state.store ≡ restored run.plan run.state.store)
      × ((finish_batch env m run engine).1.wal_entries ≡ engine.wal_entries)
unfolding finish_batch rolled_back
finish_batch-failure env m run engine e h = ground arith

restored-cleared :
    (plan : EntryRollback) (s t : EngineStore) → plan ≡ cleared_plan t → restored plan s ≡ t
unfolding restored
restored-cleared plan s t h = rw (h, restored) refl

-- A batch of SETNX of a new key, CLEAR and a command that is refused: the batch fails and the log has
-- not grown, but the key has the value of the SETNX.
pub execute_command_batch-clear_leaks :
    (env : StorageEnv) (now_ms : ℕ) (k : String) (v : List ℕ) (a : AdminCommand) (engine : Engine)
    → lookup k (purge_expired now_ms engine.state).store ≡ none
    → ((execute_command_batch env now_ms
          (Command.set_nx k v ∷ Command.clear ∷ Command.administrative a ∷ [])
          engine).0
        ≡ err unsupported_command)
      × (get_value k
            (execute_command_batch env now_ms
              (Command.set_nx k v ∷ Command.clear ∷ Command.administrative a ∷ [])
              engine).1.state.store
          ≡ some v)
      × ((execute_command_batch env now_ms
            (Command.set_nx k v ∷ Command.clear ∷ Command.administrative a ∷ [])
            engine).1.wal_entries
          ≡ engine.wal_entries)
unfolding execute_command_batch start_batch
execute_command_batch-clear_leaks env now_ms k v a engine h =
    let purged = purge_expired now_ms engine.state in
    let again : purge_expired now_ms purged ≡ purged =
      purge_expired-state_live now_ms purged (purge_expired-state_IsLive now_ms engine.state) in
    let (answer, there) = set_nx-absent now_ms k v purged (ap (λ s. lookup k s.store) again ∙ h) in
    let next = saturating_add purged.metadata.last_applied_sequence 1 in
    let term = engine.current_consensus_term in
    let run = evaluate (Command.set_nx k v) now_ms purged in
    let after = stamped now_ms next run.operations run.state in
    let (n, w, f, p) =
      run_batch-step term now_ms (Command.set_nx k v)
        (Command.clear ∷ Command.administrative a ∷ []) purged no_rollback next _ _ answer in
    let (f', p') =
      clear-batch term now_ms a after
        (remember_command purged.store (Command.set_nx k v) no_rollback) n w
        (unfold remember_command in unfold remember_key in ground arith) in
    let (e, s, log) =
      finish_batch-failure env purged.metadata _ engine unsupported_command (f ∙ f') in
    (
      e,
      ap (get_value k) (s ∙ restored-cleared _ _ after.store (p ∙ p'))
          ∙ get_value-stamped k now_ms next run.operations run.state
          ∙ there,
      log,
    )
