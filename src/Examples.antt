-- ===== src/Examples.antt =====
-- Small engines and nodes, for the instances of the theorems in the child modules.
pub mod Batches
pub mod Logs
pub mod Texts
pub mod Direct
pub mod Cluster
pub mod Wire
pub mod Lines
pub mod Access
pub mod Segments
pub mod Replays
pub mod Durable
use vaylix.Prelude.{ℕ, ◌+◌, String, Bool, true, false, Option, none, some, List, [], ◌∷◌, ok}
use vaylix.Engine.Error.{io}
use vaylix.Engine.Store.{StoredValue, EngineStore}
use vaylix.Engine.State.{EngineMetadata, EngineState, WalOperation, WalEntry}
use vaylix.Engine.Command.{Command, SetOptions}
use vaylix.Engine.Log.{StorageEnv, Engine}

-- A checksum and a write that succeed, and a write that fails.
abbrev pub working : StorageEnv
working = record { checksum = λ e. ok (e.sequence + 1_000); append_batch = λ _. none }

abbrev pub broken : StorageEnv
broken = record { checksum = λ e. ok (e.sequence + 1_000); append_batch = λ _. some io }

abbrev pub text_7 : List ℕ
text_7 = b'7' ∷ []

abbrev pub text_1 : List ℕ
text_1 = b'1' ∷ []

abbrev pub plain : List ℕ → StoredValue
plain v = record { value = v; expires_at_ms = none; version = 1 }

-- At time 10 the value of "old" has expired.
abbrev pub outdated : StoredValue
outdated = record { value = text_1; expires_at_ms = some 5; version = 1 }

abbrev pub seed : EngineStore
seed = ("a", plain text_7) ∷ ("old", outdated) ∷ []

abbrev pub metadata_at : ℕ → EngineMetadata
metadata_at n = record {
  schema_version = 1;
  created_at_ms = 0;
  updated_at_ms = 0;
  last_snapshot_at_ms = none;
  last_applied_sequence = n;
}

abbrev pub seeded : EngineState
seeded = record { store = seed; metadata = metadata_at 3 }

abbrev pub fresh : EngineState
fresh = record { store = []; metadata = metadata_at 0 }

abbrev pub engine_on : EngineState → Engine
engine_on state = record {
  state = state;
  wal_entries = [];
  wal_entry_identities = [];
  current_consensus_term = 2;
}

abbrev pub no_options : SetOptions
no_options = record {
  condition = none;
  if_version = none;
  expiration = none;
  keep_ttl = false;
  return_previous = false;
}

-- A read, a counter, a write and a deletion.
abbrev pub mixed : List Command
mixed =
    Command.get "a"
    ∷ Command.incr "a"
    ∷ Command.set "b" text_1 no_options
    ∷ Command.delete ("a" ∷ "c" ∷ [])
    ∷ []

abbrev pub entry_of : ℕ → List WalOperation → WalEntry
entry_of n ops = record { sequence = n; term = 2; created_at_ms = 10; operations = ops }
