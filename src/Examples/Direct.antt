-- ===== src/Examples/Direct.antt =====
-- Instances of the theorems on the operations outside a batch.
use vaylix.Prelude.{◌≡◌, refl}
use vaylix.Engine.Command.{Command}
use vaylix.Engine.Transaction.{evaluate, mset_store, delete_store}
use vaylix.Engine.Direct.{set_with_options}
use vaylix.Engine.Direct.Agree.{set_with_options-agrees}
use vaylix.Examples.{working, text_1, seeded, engine_on, no_options}

set_with_options-agrees_example :
    (set_with_options working 10 11 "a" text_1 no_options (engine_on seeded)).1.state.store
    ≡ (evaluate (Command.set "a" text_1 no_options) 10 seeded).state.store
unfolding set_with_options vaylix.Engine.Log.append_and_apply vaylix.Engine.Log.wal_entry_identity
    vaylix.Engine.State.apply_entry vaylix.Engine.State.apply_operations
    vaylix.Engine.State.run_operation vaylix.Engine.Transaction.set_allowed
set_with_options-agrees_example =
    set_with_options-agrees working 10 11 "a" (engine_on seeded) text_1 no_options refl
