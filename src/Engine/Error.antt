-- ===== src/Engine/Error.antt =====
-- crates/engine/src/error.rs: the errors that the modelled operations return. The text of a message
-- is replaced by the values that it is formatted from.
use vaylix.Prelude.{ℕ, String, List}

-- The messages of `InvalidStorageOperation`.
pub data StorageFault : Type 0 where
  -- "replication WAL sequence gap: expected …, got …"
  sequence_gap : ℕ → ℕ → StorageFault
  -- "non-monotonic in-memory WAL cache: previous …, got …"
  non_monotonic_cache : ℕ → ℕ → StorageFault
  -- "conflicting duplicate in-memory WAL entry at sequence …"
  conflicting_duplicate : ℕ → StorageFault
  -- "conflicting duplicate WAL identity at sequence …"
  conflicting_identity : ℕ → StorageFault
  -- "replication prefix … is older than snapshot baseline …"
  prefix_before_baseline : ℕ → ℕ → StorageFault
  -- "replication prefix gap: expected retained sequence …, got …"
  retained_gap : ℕ → ℕ → StorageFault
  -- "replication prefix gap: expected baseline …, got …"
  baseline_gap : ℕ → ℕ → StorageFault
  -- "replication replacement overlap missing retained sequence …"
  overlap_missing : ℕ → StorageFault
  -- "replication replacement overlap mismatch at sequence …"
  overlap_mismatch : ℕ → StorageFault
  -- "replication replacement gap: expected …, got …"
  replacement_gap : ℕ → ℕ → StorageFault
  -- "source and target data directories must differ"
  same_directories : StorageFault

-- The messages of `RestorePointUnavailable`.
pub data RestoreFault : Type 0 where
  -- "sequence … is older than snapshot baseline …"
  older_sequence : ℕ → ℕ → RestoreFault
  -- "timestamp … is older than snapshot baseline …"
  older_timestamp : ℕ → ℕ → RestoreFault
  -- "sequence … is outside retained WAL history"
  outside_history : ℕ → RestoreFault

-- The messages of `WalDeserialize`.
pub data WalFault : Type 0 where
  truncated_length truncated_checksum truncated_payload undecodable : WalFault
  -- "invalid WAL entry length …"
  invalid_length : ℕ → WalFault
  -- "ambiguous WAL layout: found … active segments"
  ambiguous_layout : ℕ → WalFault
  -- "sealed WAL segment is empty"
  sealed_empty : WalFault
  -- "segment start sequence mismatch for …", with the name of the file
  start_mismatch end_mismatch : ℕ → WalFault
  -- "non-contiguous WAL sequence: expected …, found …"
  non_contiguous : ℕ → ℕ → WalFault

pub data EngineError : Type 0 where
  io : EngineError
  wal_deserialize : WalFault → EngineError
  checksum_mismatch : EngineError
  unsupported_storage_format storage_migration_required : EngineError
  restore_point_unavailable : RestoreFault → EngineError
  -- "snapshot sequence … does not match manifest sequence …"
  manifest_deserialize : ℕ → ℕ → EngineError
  wal_serialize : EngineError
  invalid_storage_operation : StorageFault → EngineError
  -- the key, and the bytes that are no integer
  invalid_integer_value : String → List ℕ → EngineError
  numeric_overflow : String → EngineError
  unsupported_command : EngineError
