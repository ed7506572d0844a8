-- ===== src/Examples/Replays.antt =====
-- Instances of the theorems on the segments of the log, on its restoring and on snapshots of a leader.
use vaylix.Prelude.{ℕ, ◌≡◌, refl, true, false, none, some, List, [], ◌∷◌, ◌++◌, ok, err, arith}
use vaylix.Engine.Error.{WalFault, io, wal_deserialize, invalid_length, non_contiguous}
use vaylix.Engine.Wal.{
  Codec, Keyring, max_wal_entry_size, to_le_bytes, framed, encode_entry, read_entries,
}
use vaylix.Engine.Wal.Files.{next}
use vaylix.Engine.Wal.Segments.{
  Segment, active_file, sealed_file, WalReplay, replayed, replay, replay_until, WalReplayTarget,
}
use vaylix.Engine.Wal.Log.{IsLog}
use vaylix.Engine.Wal.Writer.{prune_sealed_segments_with_floor, WalWriter, prune_sealed_segments}
use vaylix.Engine.Wal.Writer
use vaylix.Engine.Wal.Worker.{
  WalWriterCommand, append_batch, close_active, reset, shutdown, run_wal_writer_worker,
}
use vaylix.Engine.Wal.Served.{run_wal_writer_worker-replay}
use vaylix.Engine.Wal.Frames.{encode_entry-IsFrame}
use vaylix.Engine.Wal.Crash.{read_entries-take}
use vaylix.Engine.Wal.Until.{IsCut}
use vaylix.Engine.Wal.Faults.{append_batch-torn, append_batch-long}
use vaylix.Engine.Wal.Renew.{renew_segments, renew_segments-IsLog}
use vaylix.Engine.Recovery.{recover}
use vaylix.Engine.Recovery.Install.{
  ReplicationSnapshot, installed, apply_replication_snapshot, recover-apply_replication_snapshot,
}
use vaylix.Examples.{working, seeded, fresh, engine_on}
use vaylix.Examples.Segments.{
  codec, entry, frame, entry-frame, new_log, writer, new_log-IsLog, frame-IsReadable, entry-IsSound,
  two_segments, frame-IsFile, two_segments-IsLog, two_segments-replay, long_frame, entry-long_frame,
  length-long_frame,
}
use vaylix.Engine.State.{EngineState, WalEntry, replay_entries}
use vaylix.Engine.Recovery.{SnapshotFile, Manifest, mark_snapshot, with_manifest}
use vaylix.Engine.Recovery.Point.{restored_files, restore_to_point}
use vaylix.Engine.Recovery.Restored.{recover-restore_to_point}

-- Two batches, and one between them that comes when the file is closed.
abbrev commands : List WalWriterCommand
commands =
    append_batch (entry 1 ∷ [])
    ∷ close_active
    ∷ append_batch (entry 7 ∷ [])
    ∷ reset 2
    ∷ append_batch (entry 2 ∷ [])
    ∷ shutdown
    ∷ []

run_wal_writer_worker-replay_example :
    (count : ℕ) × (replay
        (codec 0)
        none
        (run_wal_writer_worker (codec 0) none (λ _. none) 10 commands writer new_log).2
      ≡ ok (replayed count (entry 1 ∷ entry 2 ∷ [])))
run_wal_writer_worker-replay_example =
    run_wal_writer_worker-replay (codec 0) none (λ _. none) 10 true commands writer new_log
      (record { state = refl; log = new_log-IsLog (codec 0) })
      (entry-IsSound 1, (entry-IsSound 2, tt)) (refl, (refl, refl)) (omega arith)

-- With the floor in the oldest segment, pruning takes the segment behind it.
floor_leaves_gap :
    replay
      (codec 0)
      none
      (prune_sealed_segments_with_floor 0
        (some 1)
        ((sealed_file 1 1, frame 1) ∷ (sealed_file 2 2, frame 2) ∷ (active_file 3, []) ∷ [])).1
    ≡ ok (replayed 2 (entry 1 ∷ []))
unfolding prune_sealed_segments_with_floor read_entries replay to_le_bytes
    vaylix.Engine.Wal.Segments.check_contiguous vaylix.Engine.Wal.Segments.check_segment
    vaylix.Engine.Wal.Segments.count_active vaylix.Engine.Wal.Segments.insert_segment
    vaylix.Engine.Wal.Segments.list_segments vaylix.Engine.Wal.Segments.replay_loop
    vaylix.Engine.Wal.Segments.replay_segments vaylix.Engine.Wal.Writer.prune_loop
    vaylix.Engine.Wal.Writer.remove_file vaylix.Engine.Wal.Writer.sealed_segments
    vaylix.Engine.Wal.from_le_bytes vaylix.Engine.Wal.open_payload
    vaylix.Engine.Wal.read_entries_from vaylix.Engine.Wal.read_entry
floor_leaves_gap = refl

floor_leaves_gap_refused :
    replay
      (codec 0)
      none
      (prune_sealed_segments_with_floor 0
        (some 1)
        ((sealed_file 1 1, frame 1) ∷ (sealed_file 2 2, frame 2) ∷ (active_file 3, frame 3) ∷ [])).1
    ≡ err (wal_deserialize (non_contiguous 2 3))
unfolding prune_sealed_segments_with_floor read_entries replay to_le_bytes
    vaylix.Engine.Wal.Segments.check_contiguous vaylix.Engine.Wal.Segments.check_segment
    vaylix.Engine.Wal.Segments.count_active vaylix.Engine.Wal.Segments.insert_segment
    vaylix.Engine.Wal.Segments.list_segments vaylix.Engine.Wal.Segments.replay_loop
    vaylix.Engine.Wal.Segments.replay_segments vaylix.Engine.Wal.Writer.prune_loop
    vaylix.Engine.Wal.Writer.remove_file vaylix.Engine.Wal.Writer.sealed_segments
    vaylix.Engine.Wal.from_le_bytes vaylix.Engine.Wal.open_payload
    vaylix.Engine.Wal.read_entries_from vaylix.Engine.Wal.read_entry
floor_leaves_gap_refused = refl

read_entries-take_example :
    (lost : List WalEntry) × ((entry 1 ∷ []) ++ lost ≡ entry 1 ∷ entry 2 ∷ [])
unfolding read_entries to_le_bytes vaylix.Engine.Wal.from_le_bytes vaylix.Engine.Wal.open_payload
    vaylix.Engine.Wal.read_entries_from vaylix.Engine.Wal.read_entry
read_entries-take_example =
    read_entries-take (codec 0) none {bytes = frame 1 ++ frame 2} 11 (entry 1 ∷ [])
      (next (encode_entry-IsFrame (codec 0) none (entry 1) (entry-frame 1)) (frame-IsReadable 1)
        (frame-IsFile 2))
      refl

append_batch-torn_example :
    let w = Writer.append_batch (codec 0) none (λ _. some 5) (entry 1 ∷ []) writer new_log in
    (fault : WalFault) × (w.0 ≡ err io) × (replay (codec 0) none w.2 ≡ err (wal_deserialize fault))
unfolding to_le_bytes
append_batch-torn_example =
    append_batch-torn (codec 0) none (λ _. some 5) (entry 1) [] writer new_log
      (new_log-IsLog (codec 0)) refl (entry-frame 1) (frame-IsReadable 1) refl (omega arith)
      (omega arith)

renew_segments-IsLog_example :
    (writer : WalWriter) × (left_files : List Segment) × (lost : List WalEntry) × (left : List
      WalEntry)
    × (from : ℕ) × (renew_segments (codec 0) none 10 1 2 two_segments ≡ ok (writer, left_files))
    × (writer.opened ≡ true)
    × (writer.active ≡ 3)
    × (lost ++ left ≡ entry 1 ∷ entry 2 ∷ [])
    × IsLog (codec 0) none left_files writer.active from left 3
renew_segments-IsLog_example =
    renew_segments-IsLog (codec 0) none 10 1 2 two_segments-IsLog (omega arith)

append_batch-long_example :
    let w =
      Writer.append_batch
        (codec max_wal_entry_size)
        none
        (λ _. none)
        (entry 1 ∷ [])
        (record writer { max_segment_size_bytes = 0 })
        new_log in
    (size : ℕ) × (w.0 ≡ ok tt)
    × (replay (codec max_wal_entry_size) none w.2 ≡ err (wal_deserialize (invalid_length size)))
append_batch-long_example =
    append_batch-long (codec max_wal_entry_size) none (λ _. none)
      {frame = long_frame max_wal_entry_size} (entry 1)
      (record writer { max_segment_size_bytes = 0 }) new_log
      (new_log-IsLog (codec max_wal_entry_size)) refl refl
      (entry-long_frame max_wal_entry_size (omega arith))
      (let l = length-long_frame max_wal_entry_size in omega arith) refl

abbrev leader_snapshot : ReplicationSnapshot
leader_snapshot = record { state = seeded; storage_format_version = 1; exported_at_ms = 9 }

recover-apply_replication_snapshot_example :
    let i = installed 1 10 10 64 99 leader_snapshot (engine_on fresh) in
    (i.writer.opened ≡ true)
    × ((count : ℕ) × (replay (codec 0) none i.directory ≡ ok (replayed count [])))
    × (recover 1 working false fresh (some i.snapshot) (some i.manifest) [] ≡ ok i.engine.state)
unfolding apply_replication_snapshot
recover-apply_replication_snapshot_example =
    recover-apply_replication_snapshot 1 10 (codec 0) none working 10 64 99 leader_snapshot
      (engine_on fresh) fresh (installed 1 10 10 64 99 leader_snapshot (engine_on fresh)) refl

-- A state with a snapshot at sequence 1, and what it is at sequence 2.
abbrev at_sequence : ℕ → ℕ → EngineState
at_sequence n updated_at_ms = record {
  store = [];
  metadata = record fresh.metadata {
    last_applied_sequence = n;
    updated_at_ms = updated_at_ms;
    last_snapshot_at_ms = some 3;
  };
}

abbrev first_snapshot : SnapshotFile
first_snapshot = record { state = at_sequence 1 3; size_bytes = 64; checksum = 99 }

abbrev first_manifest : Manifest
first_manifest = record {
  storage_format_version = 1;
  engine_version = 1;
  last_snapshot_sequence = 1;
  last_snapshot_at_ms = 3;
  snapshot_size_bytes = 64;
  snapshot_checksum = 99;
  active_wal_start_sequence = 2;
  oldest_retained_sequence = 1;
}

recover-restore_to_point_example :
    let r = restored_files 1 20 70 98 (at_sequence 2 102) in
    (base : EngineState) × (cut : List WalEntry) × (state : EngineState) × (with_manifest 1
        (some first_snapshot)
        (some first_manifest)
        (at_sequence 1 3)
      ≡ ok base)
    × IsCut 2 (entry 1 ∷ entry 2 ∷ []) cut
    × (replay_entries cut base ≡ ok state)
    × (state.metadata.last_applied_sequence ≡ 2)
    × (log : WalReplay) × (replay (codec 0) none r.directory ≡ ok log)
    × (recover 1 working false fresh (some r.snapshot) (some r.manifest) log.entries
        ≡ ok (mark_snapshot 20 2 state))
unfolding read_entries replay replay_entries replay_until restore_to_point to_le_bytes
    vaylix.Engine.Recovery.Point.check_baseline vaylix.Engine.Recovery.Point.check_history
    vaylix.Engine.Recovery.Point.state_at vaylix.Engine.State.apply_entry
    vaylix.Engine.State.apply_operations vaylix.Engine.Wal.Segments.check_contiguous
    vaylix.Engine.Wal.Segments.check_segment vaylix.Engine.Wal.Segments.count_active
    vaylix.Engine.Wal.Segments.insert_segment vaylix.Engine.Wal.Segments.list_segments
    vaylix.Engine.Wal.Segments.replay_loop vaylix.Engine.Wal.Segments.replay_segments
    vaylix.Engine.Wal.Segments.take_while vaylix.Engine.Wal.from_le_bytes
    vaylix.Engine.Wal.open_payload vaylix.Engine.Wal.read_entries_from vaylix.Engine.Wal.read_entry
    with_manifest
recover-restore_to_point_example =
    recover-restore_to_point 1 (codec 0) none working false false 20 70 98 2 fresh fresh
      (some first_snapshot) first_manifest two_segments (replayed 2 (entry 1 ∷ entry 2 ∷ []))
      (restored_files 1 20 70 98 (at_sequence 2 102)) two_segments-replay refl
