-- ===== src/Engine/Recovery.antt =====
-- Snapshots and recovery in crates/engine/src/engine/core.rs. What the files hold is given: the
-- decoded snapshot with its size and checksum, the manifest, the entries of the retained log, and
-- whether a file of the legacy log is there. Files that cannot be read or decoded are left out.
pub mod Effect
pub mod Replay
pub mod Counters
pub mod Install
pub mod Point
pub mod Restored
use vaylix.Prelude.{
  ℕ, ◌+◌, Bool, true, false, not, Option, none, some, List, [], ◌∷◌, Result, ok, err, ◌>>=◌, ◌>>◌,
  ◌==◌, max, saturating_add, if◌then◌else◌,
}
use vaylix.Engine.Error.{
  EngineError, checksum_mismatch, unsupported_storage_format, manifest_deserialize,
  storage_migration_required,
}
use vaylix.Engine.State.{EngineMetadata, EngineState, WalEntry, purge_expired, replay_entries}
use vaylix.Engine.Log.{StorageEnv, build_wal_entry_identities}

pub record Manifest : Type 0 where
  pub storage_format_version : ℕ
  pub engine_version : ℕ
  pub last_snapshot_sequence : ℕ
  pub last_snapshot_at_ms : ℕ
  pub snapshot_size_bytes : ℕ
  pub snapshot_checksum : ℕ
  pub active_wal_start_sequence : ℕ
  pub oldest_retained_sequence : ℕ

-- The serialized state: what it decodes to, its length and its CRC-32.
pub record SnapshotFile : Type 0 where
  pub state : EngineState
  pub size_bytes : ℕ
  pub checksum : ℕ

-- crates/engine/src/engine/state.rs
unfoldable pub mark_snapshot : ℕ → ℕ → EngineState → EngineState
mark_snapshot now_ms sequence state =
    let metadata = state.metadata in
    record state {
      metadata = record metadata {
        updated_at_ms = now_ms;
        last_snapshot_at_ms = some now_ms;
        last_applied_sequence = sequence;
      };
    }

module _ (storage_format_version : ℕ) where
  unfoldable pub validate_manifest_snapshot :
      Option SnapshotFile → EngineState → Manifest → Result EngineError (Unit {0})
  validate_manifest_snapshot none state manifest =
      if manifest.storage_format_version == storage_format_version
      then err checksum_mismatch
      else err unsupported_storage_format
  validate_manifest_snapshot (some snapshot) state manifest =
      let sequence = state.metadata.last_applied_sequence in
      if not (manifest.storage_format_version == storage_format_version)
      then err unsupported_storage_format
      else if not (manifest.snapshot_size_bytes == snapshot.size_bytes)
      then err checksum_mismatch
      else if not (snapshot.checksum == manifest.snapshot_checksum)
      then err checksum_mismatch
      else if not (sequence == manifest.last_snapshot_sequence)
      then err (manifest_deserialize sequence manifest.last_snapshot_sequence)
      else ok tt

  -- The state that the manifest is merged into.
  unfoldable pub with_manifest :
      Option SnapshotFile → Option Manifest → EngineState → Result EngineError EngineState
  unfolding validate_manifest_snapshot
  with_manifest snapshot none state = ok state
  with_manifest snapshot (some manifest) state = do
    validate_manifest_snapshot snapshot state manifest
    let metadata = state.metadata
    ok (record state {
      metadata = record metadata {
        last_snapshot_at_ms = some manifest.last_snapshot_at_ms;
        last_applied_sequence = max metadata.last_applied_sequence manifest.last_snapshot_sequence;
      };
    })

  abbrev pub snapshot_or_new : Option SnapshotFile → EngineState → EngineState
  snapshot_or_new none fresh = fresh
  snapshot_or_new (some snapshot) fresh = snapshot.state

  -- `from_paths_with_options`: `legacy` tells whether a file of the old log is there, `fresh` is
  -- `EngineState::new()`. The identities of the retained entries must not conflict; then every
  -- retained entry is applied.
  unfoldable pub recover :
      StorageEnv
      → Bool
      → EngineState
      → Option SnapshotFile
      → Option Manifest
      → List WalEntry
      → Result EngineError EngineState
  unfolding with_manifest
  recover env legacy fresh snapshot manifest retained =
      if legacy then err storage_migration_required else (do
        state ← with_manifest snapshot manifest (snapshot_or_new snapshot fresh)
        _ ← build_wal_entry_identities env retained
        replay_entries retained state)

  -- `snapshot`: the durable state and the manifest beside it. `size_bytes` and `checksum` belong to
  -- the serialized state; `oldest` is what the log directory still has.
  unfoldable pub take_snapshot : ℕ → ℕ → ℕ → Option ℕ → EngineState → SnapshotFile × Manifest
  unfolding mark_snapshot
  take_snapshot now_ms size_bytes checksum oldest state =
      let purged = purge_expired now_ms state in
      let sequence = purged.metadata.last_applied_sequence in
      let durable = mark_snapshot now_ms sequence purged in
      let next = saturating_add sequence 1 in
      (
        record { state = durable; size_bytes = size_bytes; checksum = checksum },
        record {
          storage_format_version = storage_format_version;
          engine_version = durable.metadata.schema_version;
          last_snapshot_sequence = sequence;
          last_snapshot_at_ms = now_ms;
          snapshot_size_bytes = size_bytes;
          snapshot_checksum = checksum;
          active_wal_start_sequence = next;
          oldest_retained_sequence = elim oldest [ none ↦ next | some n ↦ n ];
        },
      )
