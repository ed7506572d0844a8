-- ===== src/Engine/Batch/Commit.antt =====
-- A batch that is answered: the state in memory is what the replay of its log entries gives.
use vaylix.Prelude.{
  ℕ, ◌<◌, ◌≡◌, refl, ap, ◌∙◌, sym, true, none, List, [], ◌∷◌, ◌++◌, Result, ok, err, arith, u64_max,
  append-nil,
}
use vaylix.Engine.Error.{EngineError}
use vaylix.Engine.Store.{EngineStore}
use vaylix.Engine.Store.Purge.{IsLive}
use vaylix.Engine.State.{
  EngineMetadata, EngineState, WalOperation, WalEntry, EntryRollback, no_rollback, purge_expired,
  run_operations, replay_entries,
}
use vaylix.Engine.State.Live.{purge_expired-state_live, purge_expired-state_IsLive}
use vaylix.Engine.State.Entry.{advanced, replay_entries-cons}
use vaylix.Engine.Command.{Command, TransactionResult}
use vaylix.Engine.Transaction.{evaluate}
use vaylix.Engine.Transaction.Replay.{evaluate-Replays}
use vaylix.Engine.Transaction.Steady.{evaluate-Steady}
use vaylix.Engine.Log.{StorageEnv, Engine}
use vaylix.Engine.Batch.{
  CommandBatchResult, BatchRun, is_empty, batch_entry, stamped, push_entry, remember_command,
  run_batch, write_batch, start_batch, finish_batch, execute_command_batch,
}

-- Two states with the same store and metadata.
same-state :
    (state after : EngineState)
    → ◌≡◌ {A = Result EngineError EngineStore} (ok state.store) (ok after.store)
    → after.metadata ≡ state.metadata
    → state ≡ after
same-state state after h m = ground arith

module _ (term now_ms : ℕ) (small : now_ms < u64_max) where
  -- On a state with nothing expired: the replay starts from the state itself.
  command-replays :
      (c : Command) (state : EngineState)
      → IsLive now_ms state.store
      → run_operations (evaluate c now_ms state).operations state.store
        ≡ ok (evaluate c now_ms state).state.store
  command-replays c state h =
      rw (purge_expired-state_live now_ms state h) at (evaluate-Replays c now_ms state)

  -- The entry of one command takes the state to the one that the batch goes on with.
  push_entry-replays :
      (next : ℕ) (ops : List WalOperation) (state after final : EngineState)
      (entries : List WalEntry)
      → run_operations ops state.store ≡ ok after.store
      → after.metadata ≡ state.metadata
      → replay_entries entries (stamped now_ms next ops after) ≡ ok final
      → replay_entries (push_entry ops (batch_entry term now_ms next ops) entries) state ≡ ok final
  unfolding push_entry stamped
  push_entry-replays next [] state after final entries hr hm h =
      rw (same-state state after (unfold run_operations in hr) hm) h
  push_entry-replays next (op ∷ ops) state after final entries hr hm h =
      let entry = batch_entry term now_ms next (op ∷ ops) in
      replay_entries-cons entry entries state after.store hr
      ∙ ap
          (λ m.
            replay_entries entries (record { store = after.store; metadata = advanced entry m }))
          (sym hm)
      ∙ h

  stamped-IsLive :
      (next : ℕ) (ops : List WalOperation) (state : EngineState)
      → IsLive now_ms state.store
      → IsLive now_ms (stamped now_ms next ops state).store
  unfolding stamped
  stamped-IsLive next [] state h = h
  stamped-IsLive next (op ∷ ops) state h = h

  run_batch-replays :
      (commands : List Command) (state : EngineState) (plan : EntryRollback) (next visible : ℕ)
      → IsLive now_ms state.store
      → (run_batch term now_ms commands state plan next visible).failure ≡ none
      → replay_entries (run_batch term now_ms commands state plan next visible).entries state
        ≡ ok (run_batch term now_ms commands state plan next visible).state
  unfolding run_batch
  run_batch-replays [] state plan next visible h f = unfold replay_entries in refl
  run_batch-replays (c ∷ commands) state plan next visible h f =
      let (live, same) = evaluate-Steady c now_ms state h small in
      go (evaluate c now_ms state).answer refl same (λ next' visible'.
        run_batch-replays commands _ (remember_command state.store c plan) next' visible'
          (stamped-IsLive next (evaluate c now_ms state).operations _ live))
    where
      rest : ℕ → ℕ → BatchRun
      rest next' visible' =
          run_batch term now_ms commands
            (stamped now_ms next (evaluate c now_ms state).operations
              (evaluate c now_ms state).state)
            (remember_command state.store c plan) next' visible'

      go :
          (r : Result EngineError TransactionResult)
          → (evaluate c now_ms state).answer ≡ r
          → (evaluate c now_ms state).state.metadata ≡ state.metadata
          → ((next' visible' : ℕ)
              → (rest next' visible').failure ≡ none
              → replay_entries (rest next' visible').entries (
                  stamped now_ms next
                    (evaluate c now_ms state).operations
                    (evaluate c now_ms state).state)
                ≡ ok (rest next' visible').state)
          → replay_entries
              (run_batch term now_ms (c ∷ commands) state plan next visible).entries
              state
            ≡ ok (run_batch term now_ms (c ∷ commands) state plan next visible).state
      go (err e) p same ih = absurd (ground (arith, f, p))
      go (ok r) p same ih =
          rw (p, run_batch)
            (push_entry-replays next (evaluate c now_ms state).operations state
              (evaluate c now_ms state).state _ _ (command-replays c state h) same
              (ih _ _ (rw (p, run_batch) at f)))

write_batch-ok :
    (env : StorageEnv) (m : EngineMetadata) (run : BatchRun) (engine : Engine)
    {results : List CommandBatchResult}
    → (write_batch env m run engine).0 ≡ ok results
    → ((write_batch env m run engine).1.state ≡ run.state)
      × ((write_batch env m run engine).1.wal_entries ≡ engine.wal_entries ++ run.entries)
unfolding write_batch
write_batch-ok env m run engine h = ground arith

is_empty-append : (entries log : List WalEntry) → is_empty entries ≡ true → log ≡ log ++ entries
unfolding is_empty
is_empty-append [] log h = sym (append-nil log)
is_empty-append (e ∷ entries) log h = cc

pub finish_batch-ok :
    (env : StorageEnv) (m : EngineMetadata) (run : BatchRun) (engine : Engine)
    {results : List CommandBatchResult}
    → (finish_batch env m run engine).0 ≡ ok results
    → (run.failure ≡ none)
      × ((finish_batch env m run engine).1.state ≡ run.state)
      × ((finish_batch env m run engine).1.wal_entries ≡ engine.wal_entries ++ run.entries)
unfolding finish_batch
finish_batch-ok env m run engine {results} h = ground (
  arith,
  write_batch-ok env m run engine {results = results},
  is_empty-append run.entries engine.wal_entries,
)

-- When a batch is answered, the log has grown by the entries of the batch, and replaying these
-- entries on the purged state gives the state in memory, metadata included.
pub execute_command_batch-replays :
    (env : StorageEnv) (now_ms : ℕ) (commands : List Command) (engine : Engine)
    {results : List CommandBatchResult}
    → now_ms < u64_max
    → (execute_command_batch env now_ms commands engine).0 ≡ ok results
    → ((execute_command_batch env now_ms commands engine).1.wal_entries
        ≡ engine.wal_entries ++ (start_batch now_ms commands engine).entries)
      × (replay_entries
            (start_batch now_ms commands engine).entries
            (purge_expired now_ms engine.state)
          ≡ ok (execute_command_batch env now_ms commands engine).1.state)
unfolding execute_command_batch
execute_command_batch-replays env now_ms commands engine small h =
    let (done, state, wal) = finish_batch-ok env _ (start_batch now_ms commands engine) engine h in
    (
      wal,
      run_batch-replays engine.current_consensus_term now_ms small commands
            (purge_expired now_ms engine.state) no_rollback _ _
            (purge_expired-state_IsLive now_ms engine.state) done
          ∙ ap ok (sym state),
    )
