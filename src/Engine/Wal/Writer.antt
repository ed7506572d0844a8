-- ===== src/Engine/Wal/Writer.antt =====
-- `WalWriter` of crates/engine/src/store/wal.rs, and what else changes the files of the log. Of the
-- calls on files only the writing of an entry can fail; a sync changes nothing that is read.
use vaylix.Prelude.{
  ℕ, zero, suc, ◌-◌, Bool, true, false, ◌&&◌, not, Option, none, some, List, [], ◌∷◌, ◌++◌, Result,
  ok, err, ◌>>=◌, length, take, ltb, leb, ◌==◌, saturating_add, if◌then◌else◌,
}
use vaylix.Engine.Error.{EngineError, io}
use vaylix.Engine.State.{WalEntry}
use vaylix.Engine.Wal.{Codec, Keyring, encode_entry, read_entries}
use vaylix.Engine.Wal.Segments.{
  SegmentFile, Segment, sealed_file, active_file, is_active, list_segments, last_sequence,
}

-- `active` is the start of the active segment; `open` tells whether its file is there to be written.
pub record WalWriter : Type 0 where
  pub max_segment_size_bytes : ℕ
  pub active : ℕ
  pub opened : Bool
  pub file_len : ℕ

abbrev pub same_end : Option ℕ → Option ℕ → Bool
same_end none none = true
same_end (some a) (some b) = a == b
same_end _ _ = false

-- `==` on the paths
abbrev pub same_file : SegmentFile → SegmentFile → Bool
same_file a b = a.start_sequence == b.start_sequence && same_end a.end_sequence b.end_sequence

-- Writing behind what a file holds.
unfoldable pub append_file : SegmentFile → List ℕ → List Segment → List Segment
append_file file bytes [] = []
append_file file bytes (s ∷ directory) =
    if same_file s.0 file
    then (s.0, s.1 ++ bytes) ∷ directory
    else s ∷ append_file file bytes directory

unfoldable pub remove_file : SegmentFile → List Segment → List Segment
remove_file file [] = []
remove_file file (s ∷ directory) =
    let rest = remove_file file directory in if same_file s.0 file then rest else s ∷ rest

unfoldable pub contents : SegmentFile → List Segment → Option (List ℕ)
contents file [] = none
contents file (s ∷ directory) = if same_file s.0 file then some s.1 else contents file directory

-- `OpenOptions::new().create(true).append(true).open(…)`
unfoldable pub create_file : SegmentFile → List Segment → List Segment
create_file file directory = elim (contents file directory) [
  | none ↦ directory ++ ((file, []) ∷ [])
  | some _ ↦ directory
]

-- `fs::rename`, which takes the place of a file that has the new name.
unfoldable pub rename_file : SegmentFile → SegmentFile → List Segment → List Segment
rename_file from to directory = elim (contents from directory) [
  | none ↦ directory
  | some bytes ↦ remove_file from (remove_file to directory) ++ ((to, bytes) ∷ [])
]

abbrev pub or_zero : Option (List ℕ) → ℕ
or_zero none = 0
or_zero (some bytes) = length bytes

-- `active_segment_file`: the first in the order of the keys.
unfoldable pub first_active : List Segment → Option Segment
first_active [] = none
first_active (s ∷ segments) = if is_active s.0 then some s else first_active segments

abbrev pub active_or : Option Segment → ℕ → ℕ
active_or none start = start
active_or (some s) start = s.0.start_sequence

unfoldable pub open_writer : ℕ → ℕ → List Segment → WalWriter × List Segment
open_writer max_size start directory =
    let active = active_or (first_active (list_segments directory)) start in
    let created = create_file (active_file active) directory in
    (
      record {
        max_segment_size_bytes = max_size;
        active = active;
        opened = true;
        file_len = or_zero (contents (active_file active) created);
      },
      created,
    )

-- What a call leaves: its result, the writer and the files.
abbrev pub Written : Type 0
Written = Result EngineError (Unit {0}) × WalWriter × List Segment

-- The next call, unless this one failed.
abbrev pub then_written : Written → (WalWriter → List Segment → Written) → Written
then_written (err e, writer, directory) rest = (err e, writer, directory)
then_written (ok _, writer, directory) rest = rest writer directory

unfoldable pub rotate_after : ℕ → WalWriter → List Segment → Written
rotate_after last writer directory =
    let next = saturating_add last 1 in
    (
      ok tt,
      record writer { active = next; opened = true; file_len = 0 },
      create_file (active_file next)
          (rename_file (active_file writer.active) (sealed_file writer.active last) directory),
    )

abbrev pub is_full : WalWriter → Bool
is_full writer =
    ltb 0 writer.max_segment_size_bytes && leb writer.max_segment_size_bytes writer.file_len

module _ (c : Codec) (keyring : Option Keyring) where
  -- The bytes of an entry at the end of the active file, and a rotation when it is full. `torn` is
  -- the number of bytes after which the write fails, if it does.
  unfoldable pub write_frame : Option ℕ → WalEntry → List ℕ → WalWriter → List Segment → Written
  write_frame (some n) entry frame writer directory =
      (err io, writer, append_file (active_file writer.active) (take n frame) directory)
  write_frame none entry frame writer directory =
      let longer = record writer { file_len = saturating_add writer.file_len (length frame) } in
      let appended = append_file (active_file writer.active) frame directory in
      if is_full longer
      then rotate_after entry.sequence longer appended
      else (ok tt, longer, appended)

  unfoldable pub write_entry : (WalEntry → Option ℕ) → WalEntry → WalWriter → List Segment → Written
  write_entry torn entry writer directory =
      if not writer.opened
      then (err io, writer, directory)
      else elim (encode_entry c keyring entry) [
        | err e ↦ (err e, writer, directory)
        | ok frame ↦ write_frame (torn entry) entry frame writer directory
      ]

  unfoldable pub append_batch :
      (WalEntry → Option ℕ) → List WalEntry → WalWriter → List Segment → Written
  append_batch torn [] writer directory = (ok tt, writer, directory)
  append_batch torn (e ∷ entries) writer directory =
      then_written (write_entry torn e writer directory) (append_batch torn entries)

  abbrev pub sealed_range : Segment → List WalEntry → List Segment → Option (ℕ × ℕ) × List Segment
  sealed_range s [] directory = (none, remove_file s.0 directory)
  sealed_range s (e ∷ entries) directory =
      let end = last_sequence e entries in
      let start = s.0.start_sequence in
      (some (start, end), rename_file s.0 (sealed_file start end) directory)

  -- `seal_active`: the range of the active segment, which is sealed if it holds entries.
  unfoldable pub seal_active : List Segment → Result EngineError (Option (ℕ × ℕ) × List Segment)
  seal_active directory = elim (first_active (list_segments directory)) [
    | none ↦ ok (none, directory)
    | some s ↦ read_entries c keyring s.1 >>= λ entries. ok (sealed_range s entries directory)
  ]

unfoldable pub close_active : WalWriter → WalWriter
close_active writer = record writer { opened = false }

unfoldable pub sealed_segments : List Segment → List SegmentFile
sealed_segments [] = []
sealed_segments (s ∷ segments) =
    let rest = sealed_segments segments in if is_active s.0 then rest else s.0 ∷ rest

abbrev pub end_or_start : SegmentFile → ℕ
end_or_start file = elim file.end_sequence [ none ↦ file.start_sequence | some end ↦ end ]

-- A segment that may hold the sequence that is to be kept.
abbrev pub is_kept : Option ℕ → SegmentFile → Bool
is_kept none file = false
is_kept (some n) file = leb file.start_sequence n && leb n (end_or_start file)

-- The loop over the first sealed segments, `count` of them, with the number of removed files.
unfoldable pub prune_loop : Option ℕ → ℕ → List SegmentFile → ℕ → List Segment → ℕ × List Segment
prune_loop floor zero files removed directory = (removed, directory)
prune_loop floor (suc count) [] removed directory = (removed, directory)
prune_loop floor (suc count) (file ∷ files) removed directory =
    if is_kept floor file
    then prune_loop floor count files removed directory
    else prune_loop floor count files (suc removed) (remove_file file directory)

unfoldable pub prune_sealed_segments_with_floor : ℕ → Option ℕ → List Segment → ℕ × List Segment
prune_sealed_segments_with_floor retain floor directory =
    let sealed = sealed_segments (list_segments directory) in
    if leb (length sealed) retain
    then (0, directory)
    else prune_loop floor (length sealed - retain) sealed 0 directory

unfoldable pub prune_sealed_segments : ℕ → List Segment → ℕ × List Segment
prune_sealed_segments retain directory = prune_sealed_segments_with_floor retain none directory
