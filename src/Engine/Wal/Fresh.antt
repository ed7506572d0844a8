-- ===== src/Engine/Wal/Fresh.antt =====
-- Logs that crates/engine/src/store/wal.rs writes anew, of given entries or of a legacy file, and the
-- report that `inspect` gives; the replacement of all segments in crates/engine/src/engine/core.rs.
use vaylix.Prelude.{
  ℕ, ◌+◌, Option, none, some, List, [], ◌∷◌, Result, ok, err, length, max, saturating_add,
}
use vaylix.Engine.Error.{EngineError}
use vaylix.Engine.State.{WalEntry}
use vaylix.Engine.Wal.{Codec, Keyring, read_entries}
use vaylix.Engine.Wal.Segments.{Segment, active_file, list_segments, count_active, last_sequence}
use vaylix.Engine.Wal.Writer.{
  WalWriter, Written, open_writer, append_batch, close_active, create_file, first_active,
  sealed_segments,
}

pub record WalSegmentReport : Type 0 where
  pub segment_count : ℕ
  pub sealed_segment_count : ℕ
  pub active_segment_count : ℕ
  pub oldest_retained_sequence : Option ℕ
  pub active_start_sequence : ℕ
  pub newest_sequence : Option ℕ
  pub total_size_bytes : ℕ

abbrev pub first_start : List Segment → Option ℕ
first_start [] = none
first_start (s ∷ segments) = some s.0.start_sequence

-- One after the end of the last segment, if it has one, else 1.
unfoldable pub after_last : List Segment → ℕ
after_last [] = 1
after_last (s ∷ []) = elim s.0.end_sequence [ none ↦ 1 | some end ↦ end + 1 ]
after_last (s ∷ t ∷ segments) = after_last (t ∷ segments)

abbrev pub active_start : Option Segment → List Segment → ℕ
active_start none segments = after_last segments
active_start (some s) segments = s.0.start_sequence

abbrev pub larger_end : Option ℕ → Option ℕ → Option ℕ
larger_end none newest = newest
larger_end (some a) none = some a
larger_end (some a) (some b) = some (max a b)

unfoldable pub newest_end : List Segment → Option ℕ
newest_end [] = none
newest_end (s ∷ segments) = larger_end s.0.end_sequence (newest_end segments)

unfoldable pub total_size : List Segment → ℕ
total_size [] = 0
total_size (s ∷ segments) = length s.1 + total_size segments

unfoldable pub inspect : List Segment → WalSegmentReport
inspect directory =
    let segments = list_segments directory in
    record {
      segment_count = length segments;
      sealed_segment_count = length (sealed_segments segments);
      active_segment_count = count_active segments;
      oldest_retained_sequence = first_start segments;
      active_start_sequence = active_start (first_active segments) segments;
      newest_sequence = newest_end segments;
      total_size_bytes = total_size segments;
    }

-- A call without the writer that it leaves.
abbrev pub Rewritten : Type 0
Rewritten = Result EngineError (Unit {0}) × List Segment

abbrev pub closed : Written → Rewritten
closed w = (w.0, w.2)

-- What a call that rewrites the directory gives, and its report if it succeeds.
abbrev pub reported :
    Rewritten
    → Option (List ℕ)
    → Result EngineError WalSegmentReport × Option (List ℕ) × List Segment
reported (err e, directory) legacy = (err e, legacy, directory)
reported (ok _, directory) legacy = (ok (inspect directory), none, directory)

abbrev pub next_after : ℕ → List WalEntry → ℕ
next_after baseline [] = saturating_add baseline 1
next_after baseline (e ∷ retained) = saturating_add (last_sequence e retained) 1

-- The writer on the new files.
abbrev pub reset_on : ℕ → Rewritten → ℕ → WalWriter → Written
reset_on max_size (err e, directory) next writer = (err e, writer, directory)
reset_on max_size (ok _, directory) next writer =
    let (opened, files) = open_writer max_size next directory in (ok tt, opened, files)

module _ (c : Codec) (keyring : Option Keyring) (torn : WalEntry → Option ℕ) (max_size : ℕ) where
  -- The directory is emptied first.
  unfoldable pub write_entries : List WalEntry → Rewritten
  write_entries [] = (ok tt, [])
  write_entries (e ∷ entries) =
      let (writer, opened) = open_writer max_size e.sequence [] in
      closed (append_batch c keyring torn (e ∷ entries) writer opened)

  -- `replay_legacy`: no entries if the file is not there.
  abbrev pub replay_legacy : Option (List ℕ) → Result EngineError (List WalEntry)
  replay_legacy none = ok []
  replay_legacy (some bytes) = read_entries c keyring bytes

  -- The report, and what is left of the legacy file and of the directory.
  unfoldable pub migrate_legacy :
      Option (List ℕ)
      → List Segment
      → Result EngineError WalSegmentReport × Option (List ℕ) × List Segment
  migrate_legacy legacy directory = elim (replay_legacy legacy) [
    | err e ↦ (err e, legacy, directory)
    | ok entries ↦ reported (write_entries entries) legacy
  ]

  -- The new files, before the writer is opened on them.
  abbrev pub retained_files : ℕ → List WalEntry → Rewritten
  retained_files baseline [] = (ok tt, create_file (active_file (saturating_add baseline 1)) [])
  retained_files baseline (e ∷ retained) = write_entries (e ∷ retained)

  -- `replace_replication_suffix` on the files: the retained entries take the place of the log.
  unfoldable pub replace_segments : ℕ → List WalEntry → WalWriter → Written
  replace_segments baseline retained writer =
      reset_on max_size (retained_files baseline retained) (next_after baseline retained)
        (close_active writer)
