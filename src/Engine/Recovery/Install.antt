-- ===== src/Engine/Recovery/Install.antt =====
-- `apply_replication_snapshot` of crates/engine/src/engine/core.rs: the snapshot of a leader takes the
-- place of the state, of the log and of the files. The serialized state is given by its length and its
-- CRC-32; the calls on files succeed.
use vaylix.Prelude.{
  false, ℕ, ◌≡◌, true, not, Option, some, List, [], Result, ok, err, ◌==◌, saturating_add,
  Bool-cases, inl, inr, arith, if◌then◌else◌,
}
use vaylix.Engine.Error.{EngineError, unsupported_storage_format}
use vaylix.Engine.State.{EngineState, replay_entries}
use vaylix.Engine.Log.{StorageEnv, Engine, build_wal_entry_identities, collect_identities}
use vaylix.Engine.Wal.{Codec, Keyring}
use vaylix.Engine.Wal.Segments.{Segment, active_file, replay, replayed}
use vaylix.Engine.Wal.Log.{replay-IsLog}
use vaylix.Engine.Wal.Writer.{WalWriter, open_writer, create_file}
use vaylix.Engine.Wal.Served.{reopened}
use vaylix.Engine.Wal.Rebuilt.{created-IsLog}
use vaylix.Engine.Recovery.{
  Manifest, SnapshotFile, validate_manifest_snapshot, with_manifest, recover,
}

pub record ReplicationSnapshot : Type 0 where
  pub state : EngineState
  pub storage_format_version : ℕ
  pub exported_at_ms : ℕ

-- The engine, its writer and the files after the call.
pub record Installed : Type 0 where
  pub engine : Engine
  pub writer : WalWriter
  pub snapshot : SnapshotFile
  pub manifest : Manifest
  pub directory : List Segment

abbrev pub stamped_snapshot : ℕ → EngineState → EngineState
stamped_snapshot now_ms state =
    let metadata = state.metadata in
    record state {
      metadata = record metadata { last_snapshot_at_ms = some now_ms; updated_at_ms = now_ms };
    }

module _ (storage_format_version max_size : ℕ) where
  -- What the call leaves when the format of the snapshot is known.
  unfoldable pub installed : ℕ → ℕ → ℕ → ReplicationSnapshot → Engine → Installed
  installed now_ms size_bytes checksum snapshot engine =
      let state = stamped_snapshot now_ms snapshot.state in
      let sequence = state.metadata.last_applied_sequence in
      let next = saturating_add sequence 1 in
      let (writer, opened) = open_writer max_size next (create_file (active_file next) []) in
      record {
        engine = record engine { state = state; wal_entries = []; wal_entry_identities = [] };
        writer = writer;
        snapshot = record { state = state; size_bytes = size_bytes; checksum = checksum };
        manifest = record {
          storage_format_version = storage_format_version;
          engine_version = state.metadata.schema_version;
          last_snapshot_sequence = sequence;
          last_snapshot_at_ms = now_ms;
          snapshot_size_bytes = size_bytes;
          snapshot_checksum = checksum;
          active_wal_start_sequence = next;
          oldest_retained_sequence = next;
        };
        directory = opened;
      }

  unfoldable pub apply_replication_snapshot :
      ℕ → ℕ → ℕ → ReplicationSnapshot → Engine → Result EngineError Installed
  apply_replication_snapshot now_ms size_bytes checksum snapshot engine =
      if not (snapshot.storage_format_version == storage_format_version)
      then err unsupported_storage_format
      else ok (installed now_ms size_bytes checksum snapshot engine)

  recover-installed :
      (env : StorageEnv) (now_ms size_bytes checksum : ℕ) (snapshot : ReplicationSnapshot)
      (engine : Engine) (fresh : EngineState)
      → let i = installed now_ms size_bytes checksum snapshot engine in
        recover storage_format_version env false fresh (some i.snapshot) (some i.manifest) []
        ≡ ok i.engine.state
  unfolding installed recover with_manifest validate_manifest_snapshot replay_entries
      build_wal_entry_identities collect_identities
  recover-installed env now_ms size_bytes checksum snapshot engine fresh = ground arith

  replay-installed :
      (c : Codec) (keyring : Option Keyring) (now_ms size_bytes checksum : ℕ)
      (snapshot : ReplicationSnapshot) (engine : Engine)
      → let i = installed now_ms size_bytes checksum snapshot engine in
        (i.writer.opened ≡ true)
        × ((count : ℕ) × (replay c keyring i.directory ≡ ok (replayed count [])))
  unfolding installed
  replay-installed c keyring now_ms size_bytes checksum snapshot engine =
      let next = saturating_add snapshot.state.metadata.last_applied_sequence 1 in
      let o = reopened c keyring max_size next (created-IsLog c keyring next) in
      (o.state, replay-IsLog c keyring o.log)

  -- When the snapshot of a leader is installed, the writer is open, and a restart reads an empty
  -- log and recovers the state that the engine has.
  pub recover-apply_replication_snapshot :
      (c : Codec) (keyring : Option Keyring) (env : StorageEnv) (now_ms size_bytes checksum : ℕ)
      (snapshot : ReplicationSnapshot) (engine : Engine) (fresh : EngineState) (i : Installed)
      → apply_replication_snapshot now_ms size_bytes checksum snapshot engine ≡ ok i
      → (i.writer.opened ≡ true)
        × ((count : ℕ) × (replay c keyring i.directory ≡ ok (replayed count [])))
        × (recover storage_format_version env false fresh (some i.snapshot) (some i.manifest) []
            ≡ ok i.engine.state)
  unfolding apply_replication_snapshot
  recover-apply_replication_snapshot c keyring env now_ms size_bytes checksum snapshot engine fresh
        i h =
      elim (Bool-cases (snapshot.storage_format_version == storage_format_version)) [
        | inl known ↦
            let same : installed now_ms size_bytes checksum snapshot engine ≡ i =
              ground (arith, known, h) in
            let (opened, read) =
              replay-installed c keyring now_ms size_bytes checksum snapshot engine in
            rw⁻¹ (same)
              (opened, read, recover-installed env now_ms size_bytes checksum snapshot engine fresh)
        | inr other ↦ absurd (ground (arith, other, h))
      ]
