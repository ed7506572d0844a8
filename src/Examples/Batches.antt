-- ===== src/Examples/Batches.antt =====
-- Instances of the theorems on commands and batches.
use vaylix.Prelude.{
  ℕ, ◌≤◌, ◌<◌, ◌≡◌, ◌≢◌, refl, String, Bool, true, false, Option, none, some, List, [], ◌∷◌, ◌++◌,
  Result, ok, err, arith, u64_max,
}
use vaylix.Table.{lookup}
use vaylix.Engine.Integer.{ℤ, pos}
use vaylix.Engine.Error.{io, unsupported_command}
use vaylix.Engine.Store
use vaylix.Engine.Store.{EngineStore, get_value, expired}
use vaylix.Engine.State.{
  EngineState, WalOperation, purge_expired, run_operations, replay_entries, apply_entry,
}
use vaylix.Engine.State.Undo.{apply_entry-atomic}
use vaylix.Engine.Command.{Command, AdminCommand}
use vaylix.Engine.Transaction.{evaluate}
use vaylix.Engine.Transaction.Replay.{evaluate-Replays}
use vaylix.Engine.Transaction.Steady.{Steady, evaluate-Steady}
use vaylix.Engine.Batch.{start_batch, execute_command_batch}
use vaylix.Engine.Batch.Commit.{execute_command_batch-replays}
use vaylix.Engine.Batch.Rollback.{IsRolledBack, execute_command_batch-rollback}
use vaylix.Engine.Batch.Clear.{execute_command_batch-clear_leaks}
use vaylix.Examples.{working, broken, text_1, seed, seeded, engine_on, mixed, entry_of}

execute_command_batch-replays_example :
    ((execute_command_batch working 10 mixed (engine_on seeded)).1.wal_entries
      ≡ [] ++ (start_batch 10 mixed (engine_on seeded)).entries)
    × (replay_entries (start_batch 10 mixed (engine_on seeded)).entries (purge_expired 10 seeded)
        ≡ ok (execute_command_batch working 10 mixed (engine_on seeded)).1.state)
unfolding Store.expired_keys Store.insert_value_with_version Store.purge_expired Store.remove_all
    evaluate execute_command_batch expired get_value lookup purge_expired
    vaylix.Engine.Integer.checked_add vaylix.Engine.Integer.parse_i64
    vaylix.Engine.Log.build_wal_entry_identities vaylix.Engine.Log.collect_identities
    vaylix.Engine.Log.insert_identity vaylix.Engine.Log.lookup_identity
    vaylix.Engine.State.parse_integer_value vaylix.Engine.Transaction.run_command
    vaylix.Prelude.saturating_add vaylix.Table.contains_key vaylix.Table.insert vaylix.Table.remove
execute_command_batch-replays_example =
    execute_command_batch-replays working 10 mixed (engine_on seeded) (omega arith) refl

execute_command_batch-rollback_example :
    IsRolledBack 10 (engine_on seeded) (execute_command_batch broken 10 mixed (engine_on seeded)).1
unfolding Store.expired_keys Store.insert_value_with_version Store.purge_expired Store.remove_all
    evaluate execute_command_batch expired get_value lookup purge_expired
    vaylix.Engine.Integer.checked_add vaylix.Engine.Integer.parse_i64
    vaylix.Engine.Log.build_wal_entry_identities vaylix.Engine.Log.collect_identities
    vaylix.Engine.Log.insert_identity vaylix.Engine.Log.lookup_identity
    vaylix.Engine.State.parse_integer_value vaylix.Engine.Transaction.run_command
    vaylix.Prelude.saturating_add vaylix.Table.contains_key vaylix.Table.insert vaylix.Table.remove
execute_command_batch-rollback_example =
    execute_command_batch-rollback broken 10 mixed (engine_on seeded) io _ (omega arith)
      (refl, (refl, (refl, (refl, tt)))) refl refl

execute_command_batch-clear_leaks_example :
    ((execute_command_batch working 10
        (Command.set_nx "k" text_1 ∷ Command.clear ∷ Command.administrative AdminCommand.info ∷ [])
        (engine_on seeded)).0
      ≡ err unsupported_command)
    × (get_value "k"
          (execute_command_batch working 10
            (Command.set_nx "k" text_1
              ∷ Command.clear
              ∷ Command.administrative AdminCommand.info
              ∷ [])
            (engine_on seeded)).1.state.store
        ≡ some text_1)
    × ((execute_command_batch working 10
          (Command.set_nx "k" text_1
            ∷ Command.clear
            ∷ Command.administrative AdminCommand.info
            ∷ [])
          (engine_on seeded)).1.wal_entries
        ≡ [])
unfolding Store.expired_keys Store.purge_expired Store.remove_all expired lookup purge_expired
    vaylix.Table.remove
execute_command_batch-clear_leaks_example =
    execute_command_batch-clear_leaks working 10 "k" text_1 AdminCommand.info (engine_on seeded)
      refl

evaluate-Replays_example :
    run_operations
      (evaluate (Command.incr "a") 10 seeded).operations
      (purge_expired 10 seeded).store
    ≡ ok (evaluate (Command.incr "a") 10 seeded).state.store
evaluate-Replays_example = evaluate-Replays (Command.incr "a") 10 seeded

evaluate-Steady_example :
    Steady 10
      (purge_expired 10 seeded)
      (evaluate (Command.expire "a" 5) 10 (purge_expired 10 seeded))
unfolding Store.expired_keys Store.purge_expired Store.remove_all expired purge_expired
    vaylix.Table.remove
evaluate-Steady_example =
    evaluate-Steady (Command.expire "a" 5) 10 (purge_expired 10 seeded) (refl, tt) (omega arith)

apply_entry-atomic_example :
    (lookup "a"
        (apply_entry
          (entry_of 4 (
            WalOperation.set "a" text_1 2
            ∷ WalOperation.set "b" (b'x' ∷ []) 1
            ∷ WalOperation.check_integer "b" (pos 1)
            ∷ []))
          seeded).1.store
      ≡ lookup "a" seed)
    × ((apply_entry
          (entry_of 4 (
            WalOperation.set "a" text_1 2
            ∷ WalOperation.set "b" (b'x' ∷ []) 1
            ∷ WalOperation.check_integer "b" (pos 1)
            ∷ []))
          seeded).1.metadata
        ≡ seeded.metadata)
unfolding Store.insert_value_with_version apply_entry lookup vaylix.Engine.Integer.parse_i64
    vaylix.Engine.State.apply_operations vaylix.Engine.State.parse_integer_value
    vaylix.Engine.State.run_operation vaylix.Table.insert
apply_entry-atomic_example =
    apply_entry-atomic
      (entry_of 4 (
        WalOperation.set "a" text_1 2
        ∷ WalOperation.set "b" (b'x' ∷ []) 1
        ∷ WalOperation.check_integer "b" (pos 1)
        ∷ []))
      seeded _ "a" (refl, (refl, (refl, tt))) refl
