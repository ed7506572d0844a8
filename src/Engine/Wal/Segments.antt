-- ===== src/Engine/Wal/Segments.antt =====
-- The segments of the log in crates/engine/src/store/wal.rs: the files of its directory, and their
-- replay. Names are read as the source writes them; files with other names are skipped and left out.
use vaylix.Prelude.{
  ℕ, suc, ◌+◌, Bool, true, false, ◌&&◌, ◌||◌, not, Option, none, some, List, [], ◌∷◌, ◌++◌, Result,
  ok, err, ◌>>=◌, length, ltb, leb, ◌==◌, if◌then◌else◌,
}
use vaylix.Engine.Error.{
  EngineError, wal_deserialize, ambiguous_layout, sealed_empty, start_mismatch, end_mismatch,
  non_contiguous,
}
use vaylix.Engine.State.{WalEntry}
use vaylix.Engine.Wal.{Codec, Keyring, read_entries}

-- `{start}-{end}.wal`, or `active-{start}.wal` with no end.
pub record SegmentFile : Type 0 where
  pub start_sequence : ℕ
  pub end_sequence : Option ℕ

-- A file with what it holds.
abbrev pub Segment : Type 0
Segment = SegmentFile × List ℕ

abbrev pub sealed_file : ℕ → ℕ → SegmentFile
sealed_file start end = record { start_sequence = start; end_sequence = some end }

abbrev pub active_file : ℕ → SegmentFile
active_file start = record { start_sequence = start; end_sequence = none }

abbrev pub is_active : SegmentFile → Bool
is_active file = elim file.end_sequence [ none ↦ true | some _ ↦ false ]

-- `sort_key` of the left is not above that of the right.
abbrev pub not_above : SegmentFile → SegmentFile → Bool
not_above a b =
    ltb a.start_sequence b.start_sequence
    || (a.start_sequence == b.start_sequence && (not (is_active a) || is_active b))

unfoldable pub insert_segment : Segment → List Segment → List Segment
insert_segment s [] = s ∷ []
insert_segment s (t ∷ segments) =
    if not_above s.0 t.0 then s ∷ t ∷ segments else t ∷ insert_segment s segments

-- `list_segments`: the files of the directory in the order of their keys.
unfoldable pub list_segments : List Segment → List Segment
list_segments [] = []
list_segments (s ∷ directory) = insert_segment s (list_segments directory)

unfoldable pub count_active : List Segment → ℕ
count_active [] = 0
count_active (s ∷ segments) =
    if is_active s.0 then suc (count_active segments) else count_active segments

abbrev pub last_sequence : WalEntry → List WalEntry → ℕ
last_sequence e [] = e.sequence
last_sequence e (next ∷ entries) = last_sequence next entries

abbrev pub ends_at : SegmentFile → ℕ → Bool
ends_at file n = elim file.end_sequence [ none ↦ true | some end ↦ n == end ]

-- The entries of a segment must be those of its name.
unfoldable pub check_segment : SegmentFile → List WalEntry → Result EngineError (Unit {0})
check_segment file [] = if is_active file then ok tt else err (wal_deserialize sealed_empty)
check_segment file (e ∷ entries) =
    if not (e.sequence == file.start_sequence)
    then err (wal_deserialize (start_mismatch file.start_sequence))
    else if not (ends_at file (last_sequence e entries))
    then err (wal_deserialize (end_mismatch file.start_sequence))
    else ok tt

abbrev pub unexpected : Option ℕ → ℕ → Option EngineError
unexpected none n = none
unexpected (some expected) n =
    if not (n == expected) then some (wal_deserialize (non_contiguous expected n)) else none

-- The sequence that must come next, `none` before the first entry. The source's sum is on `u64`.
unfoldable pub check_contiguous : Option ℕ → List WalEntry → Result EngineError (Option ℕ)
check_contiguous expected [] = ok expected
check_contiguous expected (e ∷ entries) = elim (unexpected expected e.sequence) [
  | some error ↦ err error
  | none ↦ check_contiguous (some (e.sequence + 1)) entries
]

pub record WalReplay : Type 0 where
  pub entries : List WalEntry
  pub segment_count : ℕ
  pub oldest_retained_sequence : Option ℕ
  pub newest_sequence : Option ℕ

abbrev pub first_of : List WalEntry → Option ℕ
first_of [] = none
first_of (e ∷ entries) = some e.sequence

abbrev pub last_of : List WalEntry → Option ℕ
last_of [] = none
last_of (e ∷ entries) = some (last_sequence e entries)

abbrev pub replayed : ℕ → List WalEntry → WalReplay
replayed count entries = record {
  entries = entries;
  segment_count = count;
  oldest_retained_sequence = first_of entries;
  newest_sequence = last_of entries;
}

module _ (c : Codec) (keyring : Option Keyring) where
  unfoldable pub replay_loop : Option ℕ → List Segment → Result EngineError (List WalEntry)
  replay_loop expected [] = ok []
  replay_loop expected (s ∷ segments) = do
    entries ← read_entries c keyring s.1
    _ ← check_segment s.0 entries
    next ← check_contiguous expected entries
    rest ← replay_loop next segments
    ok (entries ++ rest)

  unfoldable pub replay_segments : List Segment → Result EngineError WalReplay
  replay_segments segments =
      if ltb 1 (count_active segments)
      then err (wal_deserialize (ambiguous_layout (count_active segments)))
      else replay_loop none segments >>= λ entries. ok (replayed (length segments) entries)

  unfoldable pub replay : List Segment → Result EngineError WalReplay
  replay directory = replay_segments (list_segments directory)

pub data WalReplayTarget : Type 0 where
  to_sequence to_timestamp_ms : ℕ → WalReplayTarget

abbrev pub within_target : WalReplayTarget → WalEntry → Bool
within_target (WalReplayTarget.to_sequence n) e = leb e.sequence n
within_target (WalReplayTarget.to_timestamp_ms t) e = leb e.created_at_ms t

unfoldable pub take_while : (WalEntry → Bool) → List WalEntry → List WalEntry
take_while test [] = []
take_while test (e ∷ entries) = if test e then e ∷ take_while test entries else []

abbrev pub cut_at : WalReplayTarget → WalReplay → WalReplay
cut_at target found =
    let entries = take_while (within_target target) found.entries in
    record found { entries = entries; newest_sequence = last_of entries }

unfoldable pub replay_until :
    Codec → Option Keyring → List Segment → WalReplayTarget → Result EngineError WalReplay
replay_until c keyring directory target =
    replay c keyring directory >>= λ found. ok (cut_at target found)
