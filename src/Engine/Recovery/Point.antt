-- ===== src/Engine/Recovery/Point.antt =====
-- `restore_to_point` of crates/engine/src/engine/core.rs: a data directory is rebuilt in another place
-- as it was at a sequence or a time. The serialized state is given by its length and its CRC-32; the
-- calls on files succeed, and the keyring, which is written beside them, is left out.
use vaylix.Prelude.{
  ℕ, Bool, Option, none, some, List, [], Result, ok, err, ◌>>=◌, ◌>>◌, ltb, saturating_add,
  if◌then◌else◌,
}
use vaylix.Engine.Error.{
  EngineError, restore_point_unavailable, older_sequence, older_timestamp, outside_history,
  storage_migration_required, invalid_storage_operation, same_directories,
}
use vaylix.Engine.State.{EngineState, replay_entries}
use vaylix.Engine.Wal.{Codec, Keyring}
use vaylix.Engine.Wal.Segments.{Segment, WalReplay, WalReplayTarget, replay_until, active_file}
use vaylix.Engine.Wal.Writer.{create_file}
use vaylix.Engine.Recovery.{Manifest, SnapshotFile, mark_snapshot, with_manifest, snapshot_or_new}

abbrev pub snapshot_sequence_of : Option Manifest → ℕ
snapshot_sequence_of none = 0
snapshot_sequence_of (some manifest) = manifest.last_snapshot_sequence

abbrev pub snapshot_time_of : Option Manifest → ℕ
snapshot_time_of none = 0
snapshot_time_of (some manifest) = manifest.last_snapshot_at_ms

-- The target is not behind the snapshot.
unfoldable pub check_baseline : WalReplayTarget → ℕ → ℕ → Result EngineError (Unit {0})
check_baseline (WalReplayTarget.to_sequence n) sequence time_ms =
    if ltb n sequence then err (restore_point_unavailable (older_sequence n sequence)) else ok tt
check_baseline (WalReplayTarget.to_timestamp_ms t) sequence time_ms =
    if ltb t time_ms then err (restore_point_unavailable (older_timestamp t time_ms)) else ok tt

abbrev pub newest_or : Option ℕ → ℕ → ℕ
newest_or none n = n
newest_or (some m) n = m

-- A target sequence is not beyond the log.
unfoldable pub check_history : WalReplayTarget → WalReplay → ℕ → Result EngineError (Unit {0})
check_history (WalReplayTarget.to_sequence n) found sequence =
    if ltb (newest_or found.newest_sequence sequence) n
    then err (restore_point_unavailable (outside_history n))
    else ok tt
check_history (WalReplayTarget.to_timestamp_ms t) found sequence = ok tt

-- What is written to the target.
pub record Restored : Type 0 where
  pub snapshot : SnapshotFile
  pub manifest : Manifest
  pub directory : List Segment

module _ (storage_format_version : ℕ) where
  -- The state with the snapshot mark, and the files.
  unfoldable pub restored_files : ℕ → ℕ → ℕ → EngineState → Restored
  restored_files now_ms size_bytes checksum state =
      let sequence = state.metadata.last_applied_sequence in
      let durable = mark_snapshot now_ms sequence state in
      let next = saturating_add sequence 1 in
      record {
        snapshot = record { state = durable; size_bytes = size_bytes; checksum = checksum };
        manifest = record {
          storage_format_version = storage_format_version;
          engine_version = durable.metadata.schema_version;
          last_snapshot_sequence = sequence;
          last_snapshot_at_ms = now_ms;
          snapshot_size_bytes = size_bytes;
          snapshot_checksum = checksum;
          active_wal_start_sequence = next;
          oldest_retained_sequence = next;
        };
        directory = create_file (active_file next) [];
      }

  module _ (c : Codec) (keyring : Option Keyring) where
    -- The state at the target.
    unfoldable pub state_at :
        EngineState
        → Option SnapshotFile
        → Option Manifest
        → List Segment
        → WalReplayTarget
        → Result EngineError EngineState
    state_at fresh snapshot manifest directory target = do
      state ←
          with_manifest storage_format_version snapshot manifest
            (snapshot_or_new storage_format_version snapshot fresh)
      check_baseline target (snapshot_sequence_of manifest) (snapshot_time_of manifest)
      found ← replay_until c keyring directory target
      check_history target found (snapshot_sequence_of manifest)
      replay_entries found.entries state

    -- `same` tells whether source and target are one directory, `legacy` whether the source has a
    -- legacy log.
    unfoldable pub restore_to_point :
        Bool
        → Bool
        → ℕ
        → ℕ
        → ℕ
        → EngineState
        → Option SnapshotFile
        → Option Manifest
        → List Segment
        → WalReplayTarget
        → Result EngineError Restored
    restore_to_point same legacy now_ms size_bytes checksum fresh snapshot manifest directory
          target =
        if same
        then err (invalid_storage_operation same_directories)
        else if legacy
        then err storage_migration_required
        else state_at fresh snapshot manifest directory target >>= λ state.
            ok (restored_files now_ms size_bytes checksum state)
