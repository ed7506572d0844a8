-- ===== src/Engine/State/Entry.antt =====
-- `apply_entry` against the plain run of its operations: an entry that succeeds is that run with the
-- metadata moved on.
use vaylix.Prelude.{◌≡◌, none, List, [], ◌∷◌, ok, >>=-eq-ok, arith}
use vaylix.Engine.Store.{EngineStore}
use vaylix.Engine.State.{
  EngineMetadata, EngineState, WalOperation, WalEntry, EntryRollback, no_rollback,
  remember_operation, run_operation, run_operations, apply_operations, apply_entry, replay_entries,
}

apply_operations-ok :
    (ops : List WalOperation) (s t : EngineStore) (plan : EntryRollback)
    → run_operations ops s ≡ ok t
    → ((apply_operations ops s plan).failure ≡ none) × ((apply_operations ops s plan).store ≡ t)
unfolding apply_operations run_operations
apply_operations-ok [] s t plan h = ground arith
apply_operations-ok (op ∷ ops) s t plan h =
    let (u, p, q) = >>=-eq-ok (run_operation op s) (run_operations ops) h in
    rw (p, apply_operations) (apply_operations-ok ops u t (remember_operation op s plan) q)

-- The metadata after an entry.
abbrev pub advanced : WalEntry → EngineMetadata → EngineMetadata
advanced entry m = record m {
  last_applied_sequence = entry.sequence;
  updated_at_ms = entry.created_at_ms;
}

pub apply_entry-ok :
    (entry : WalEntry) (state : EngineState) (t : EngineStore)
    → run_operations entry.operations state.store ≡ ok t
    → apply_entry entry state
      ≡ (none, record { store = t; metadata = advanced entry state.metadata })
unfolding apply_entry
apply_entry-ok entry state t h =
    ground (arith, apply_operations-ok entry.operations state.store t no_rollback h)

pub replay_entries-cons :
    (entry : WalEntry) (entries : List WalEntry) (state : EngineState) (t : EngineStore)
    → run_operations entry.operations state.store ≡ ok t
    → replay_entries (entry ∷ entries) state
      ≡ replay_entries entries (record { store = t; metadata = advanced entry state.metadata })
unfolding replay_entries
replay_entries-cons entry entries state t h = ground (arith, apply_entry-ok entry state t h)
