-- ===== src/Engine/Batch/Rollback.antt =====
-- A batch that fails: the undo log brings back every key, if no command of the batch is CLEAR.
use vaylix.Prelude.{
  ℕ, ◌<◌, ◌≡◌, refl, ap, ◌∙◌, String, false, ◌||◌, none, List, [], ◌∷◌, Result, ok, err, arith,
  u64_max, All,
}
use vaylix.Table.{lookup, contains_key}
use vaylix.Engine.Error.{EngineError}
use vaylix.Engine.Store.{EngineStore}
use vaylix.Engine.Store.Purge.{IsLive}
use vaylix.Engine.State.{
  EngineMetadata, EngineState, EntryRollback, no_rollback, remember_key, purge_expired,
}
use vaylix.Engine.State.Undo.{
  IsUndo, IsUndo-restored, contains-remember_key, remember_key-IsUndo, IsUndo-change,
}
use vaylix.Engine.State.Live.{purge_expired-state_IsLive}
use vaylix.Engine.Command.{Command, TransactionResult}
use vaylix.Engine.Transaction.{Evaluation, evaluate}
use vaylix.Engine.Transaction.Steady.{evaluate-Steady}
use vaylix.Engine.Transaction.Frame.{member, entry_keys, written_keys, is_clear, evaluate-frame}
use vaylix.Engine.Log.{StorageEnv, Engine, Identities, build_wal_entry_identities}
use vaylix.Engine.Batch.{
  BatchRun, remember_keys, remember_entries, remember_command, stamped, run_batch, rolled_back,
  write_batch, start_batch, finish_batch, execute_command_batch,
}

contains-remember_keys :
    (s : EngineStore) (keys : List String) (j : String) (plan : EntryRollback)
    → plan.clear_snapshot ≡ none
    → contains_key j (remember_keys s keys plan).keys ≡ (member j keys || contains_key j plan.keys)
unfolding remember_keys
contains-remember_keys s [] j plan c = refl
contains-remember_keys s (k ∷ keys) j plan c = ground (
  arith,
  contains-remember_keys s keys j (remember_key s k plan) (unfold remember_key in ground arith),
  contains-remember_key s k j plan c,
)

remember_keys-IsUndo :
    {s₀ s : EngineStore} (keys : List String) {plan : EntryRollback}
    → IsUndo s₀ s plan
    → IsUndo s₀ s (remember_keys s keys plan)
unfolding remember_keys
remember_keys-IsUndo [] h = h
remember_keys-IsUndo (k ∷ keys) h = remember_keys-IsUndo keys (remember_key-IsUndo k h)

remember_entries-keys :
    (s : EngineStore) (entries : List (String × List ℕ)) (plan : EntryRollback)
    → remember_entries s entries plan ≡ remember_keys s (entry_keys entries) plan
unfolding remember_entries remember_keys
remember_entries-keys s [] plan = refl
remember_entries-keys s ((k, v) ∷ entries) plan = remember_entries-keys s entries _

-- What is remembered for a command are the keys that it may write.
remember_command-keys :
    (s : EngineStore) (c : Command) (plan : EntryRollback)
    → is_clear c ≡ false
    → remember_command s c plan ≡ remember_keys s (written_keys c) plan
unfolding remember_command
remember_command-keys s (Command.mset entries) plan n = remember_entries-keys s entries plan
remember_command-keys s Command.clear plan n = cc
remember_command-keys s _ plan n = refl

module _ (now_ms : ℕ) (small : now_ms < u64_max) where
  command-IsUndo :
      {s₀ : EngineStore} (c : Command) (state : EngineState) {plan : EntryRollback}
      → IsLive now_ms state.store
      → is_clear c ≡ false
      → IsUndo s₀ state.store plan
      → IsUndo s₀ (evaluate c now_ms state).state.store (remember_command state.store c plan)
  command-IsUndo {s₀} c state {plan} live n h = rw (remember_command-keys state.store c plan n) (
      IsUndo-change _ (remember_keys-IsUndo (written_keys c) h) λ j absent.
        evaluate-frame c now_ms state j live n
          (ground (arith, contains-remember_keys state.store (written_keys c) j plan h.cleared)))

  stamped-store :
      (next : ℕ) (run : Evaluation)
      → (stamped now_ms next run.operations run.state).store ≡ run.state.store
  unfolding stamped
  stamped-store next run = ground arith

  run_batch-IsUndo :
      {s₀ : EngineStore} (term : ℕ) (commands : List Command) (state : EngineState)
      (plan : EntryRollback) (next visible : ℕ)
      → IsLive now_ms state.store
      → All (λ c. is_clear c ≡ false) commands
      → IsUndo s₀ state.store plan
      → IsUndo s₀
          (run_batch term now_ms commands state plan next visible).state.store
          (run_batch term now_ms commands state plan next visible).plan
  unfolding run_batch
  run_batch-IsUndo term [] state plan next visible live n h = h
  run_batch-IsUndo {s₀} term (c ∷ commands) state plan next visible live (nc, ns) h =
      go (evaluate c now_ms state).answer refl λ next' visible'.
        run_batch-IsUndo term commands after (remember_command state.store c plan) next' visible'
          (rw (stamped-store next run) (evaluate-Steady c now_ms state live small).0) ns
          (rw (stamped-store next run) (command-IsUndo c state live nc h))
    where
      run : Evaluation
      run = evaluate c now_ms state

      after : EngineState
      after = stamped now_ms next run.operations run.state

      rest : ℕ → ℕ → BatchRun
      rest = run_batch term now_ms commands after (remember_command state.store c plan)

      go :
          (r : Result EngineError TransactionResult)
          → run.answer ≡ r
          → ((next' visible' : ℕ)
              → IsUndo s₀ (rest next' visible').state.store (rest next' visible').plan)
          → IsUndo s₀
              (run_batch term now_ms (c ∷ commands) state plan next visible).state.store
              (run_batch term now_ms (c ∷ commands) state plan next visible).plan
      go (err e) p ih = rw (p, run_batch) (command-IsUndo c state live nc h)
      go (ok r) p ih = rw (p, run_batch) (ih _ _)

-- The engine after a failed batch: as after the purge alone.
pub record IsRolledBack (now_ms : ℕ) (before after : Engine) : Type 0 where
  pub keys :
      (j : String) → lookup j after.state.store ≡ lookup j (purge_expired now_ms before.state).store
  pub metadata : after.state.metadata ≡ (purge_expired now_ms before.state).metadata
  pub log : after.wal_entries ≡ before.wal_entries

finish_batch-err :
    (env : StorageEnv) (m : EngineMetadata) (run : BatchRun) (engine : Engine) (e : EngineError)
    (ids : Identities)
    → build_wal_entry_identities env run.entries ≡ ok ids
    → (finish_batch env m run engine).0 ≡ err e
    → ((finish_batch env m run engine).1.state ≡ rolled_back run.plan m run.state)
      × ((finish_batch env m run engine).1.wal_entries ≡ engine.wal_entries)
unfolding finish_batch write_batch
finish_batch-err env m run engine e ids built h = ground arith

-- When a batch with no CLEAR fails, by one of its commands or by the write to the log, every key
-- reads as after the purge alone, and the metadata and the log are as they were then. The identities
-- of the entries are assumed to be computed: their failure has no rollback.
pub execute_command_batch-rollback :
    (env : StorageEnv) (now_ms : ℕ) (commands : List Command) (engine : Engine) (e : EngineError)
    (ids : Identities)
    → now_ms < u64_max
    → All (λ c. is_clear c ≡ false) commands
    → build_wal_entry_identities env (start_batch now_ms commands engine).entries ≡ ok ids
    → (execute_command_batch env now_ms commands engine).0 ≡ err e
    → IsRolledBack now_ms engine (execute_command_batch env now_ms commands engine).1
unfolding execute_command_batch rolled_back
execute_command_batch-rollback env now_ms commands engine e ids small quiet built h =
    let purged = purge_expired now_ms engine.state in
    let (state, log) =
      finish_batch-err env purged.metadata (start_batch now_ms commands engine) engine e ids built
        h in
    let undo : IsUndo purged.store purged.store no_rollback = record {
      cleared = refl;
      distinct = tt;
      back = λ j. unfold lookup in refl;
    } in
    let after =
      run_batch-IsUndo now_ms small engine.current_consensus_term commands purged no_rollback _ _
        (purge_expired-state_IsLive now_ms engine.state) quiet undo in
    record {
      keys = λ j. ap (λ s. lookup j s.store) state ∙ IsUndo-restored after j;
      metadata = ap (λ s. s.metadata) state;
      log = log;
    }
