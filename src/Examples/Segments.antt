-- ===== src/Examples/Segments.antt =====
-- A small codec of log entries, and directories of segments that it reads.
use vaylix.Prelude.{
  ℕ, zero, suc, ◌+◌, ◌<◌, ◌^◌, ◌≡◌, refl, sym, ap, true, Option, none, some, List, [], ◌∷◌, ◌++◌,
  ok, arith, length,
}
use vaylix.Engine.State.{WalEntry, WalOperation}
use vaylix.Engine.Wal.{
  Codec, Keyring, max_wal_entry_size, to_le_bytes, framed, encode_entry, read_entries,
}
use vaylix.Engine.Wal.Frames.{IsReadable}
use vaylix.Engine.Wal.Files.{IsFile, start, next}
use vaylix.Engine.Wal.Segments.{
  Segment, active_file, sealed_file, WalReplay, replayed, replay, replay_until, WalReplayTarget,
}
use vaylix.Engine.Wal.Log.{IsLog, done, more}
use vaylix.Engine.Wal.Writer.{WalWriter}
use vaylix.Engine.Wal.Append.{IsSound}
use vaylix.Engine.Wal.Frames.{encode_entry-IsFrame}

unfoldable pub zeros : ℕ → List ℕ
zeros zero = []
zeros (suc n) = 0 ∷ zeros n

-- An entry with no operations is its fields and `n` zeros; other entries are refused.
abbrev pub fields : ℕ → WalEntry → List WalOperation → Option (List ℕ)
fields n e [] = some (e.sequence ∷ e.term ∷ e.created_at_ms ∷ zeros n)
fields n e (_ ∷ _) = none

abbrev pub from_fields : List ℕ → Option WalEntry
from_fields (s ∷ t ∷ at ∷ _) =
    some (record { sequence = s; term = t; created_at_ms = at; operations = [] })
from_fields _ = none

pub fields_lem :
    (n : ℕ) (e : WalEntry) (operations : List WalOperation) {bytes : List ℕ}
    → e.operations ≡ operations
    → fields n e operations ≡ some bytes
    → from_fields bytes ≡ some e
fields_lem n e [] {bytes} none_of h =
    let same : (e.sequence ∷ e.term ∷ e.created_at_ms ∷ zeros n) ≡ bytes = cc in
    rw⁻¹ (same) (ap (λ o. some (record e { operations = o })) (sym none_of))
fields_lem n e (_ ∷ _) none_of h = cc

abbrev pub codec : ℕ → Codec
codec n = record {
  encode = λ e. fields n e e.operations;
  decode = from_fields;
  hash = λ bytes. 7;
  decode-encode = λ e. fields_lem n e e.operations refl;
  hash-lt = λ bytes. omega arith;
}

abbrev pub entry : ℕ → WalEntry
entry n = record { sequence = n; term = 1; created_at_ms = 100 + n; operations = [] }

-- The bytes of an entry.
abbrev pub frame : ℕ → List ℕ
frame n = to_le_bytes 3 ++ (to_le_bytes 7 ++ (n ∷ 1 ∷ (100 + n) ∷ []))

pub entry-frame : (n : ℕ) → encode_entry (codec 0) none (entry n) ≡ ok (frame n)
unfolding encode_entry framed zeros
entry-frame n = refl

-- The directory of a new log, and its writer, which seals a segment after every entry.
abbrev pub new_log : List Segment
new_log = (active_file 1, []) ∷ []

abbrev pub writer : WalWriter
writer = record { max_segment_size_bytes = 10; active = 1; opened = true; file_len = 0 }

pub new_log-IsLog : (c : Codec) → IsLog c none new_log 1 1 [] 1
new_log-IsLog c = record {
  segments = [];
  bytes = [];
  old = [];
  new = [];
  chain = done;
  file = start;
  run = refl;
  shape = refl;
  entries = refl;
}

pub frame-IsReadable : (n : ℕ) → IsReadable (frame n)
unfolding to_le_bytes
frame-IsReadable n = (omega arith, omega arith)

pub entry-IsSound : (n : ℕ) → IsSound (codec 0) none (λ _. none) (entry n)
entry-IsSound n = record {
  frame = frame n;
  encoded = entry-frame n;
  readable = frame-IsReadable n;
  whole = refl;
}

-- A sealed and an active segment with an entry each.
abbrev pub two_segments : List Segment
two_segments = (sealed_file 1 1, frame 1) ∷ (active_file 2, frame 2) ∷ []

pub frame-IsFile : (n : ℕ) → IsFile (codec 0) none (entry n ∷ []) (frame n)
unfolding to_le_bytes
frame-IsFile n =
    next (encode_entry-IsFrame (codec 0) none (entry n) (entry-frame n)) (frame-IsReadable n) start

pub two_segments-IsLog : IsLog (codec 0) none two_segments 2 1 (entry 1 ∷ entry 2 ∷ []) 3
two_segments-IsLog = record {
  segments = (sealed_file 1 1, frame 1) ∷ [];
  bytes = frame 2;
  old = entry 1 ∷ [];
  new = entry 2 ∷ [];
  chain = more (frame-IsFile 1) (omega arith) (refl, refl) done;
  file = frame-IsFile 2;
  run = (refl, refl);
  shape = refl;
  entries = refl;
}

pub two_segments-replay :
    replay (codec 0) none two_segments ≡ ok (replayed 2 (entry 1 ∷ entry 2 ∷ []))
unfolding read_entries replay to_le_bytes vaylix.Engine.Wal.Segments.check_contiguous
    vaylix.Engine.Wal.Segments.check_segment vaylix.Engine.Wal.Segments.count_active
    vaylix.Engine.Wal.Segments.insert_segment vaylix.Engine.Wal.Segments.list_segments
    vaylix.Engine.Wal.Segments.replay_loop vaylix.Engine.Wal.Segments.replay_segments
    vaylix.Engine.Wal.from_le_bytes vaylix.Engine.Wal.open_payload
    vaylix.Engine.Wal.read_entries_from vaylix.Engine.Wal.read_entry
two_segments-replay = refl

length-zeros : (n : ℕ) → length (zeros n) ≡ n
unfolding zeros
length-zeros zero = refl
length-zeros (suc n) = ap suc (length-zeros n)

-- The bytes of the first entry when `n` zeros are behind its fields.
abbrev pub long_frame : ℕ → List ℕ
long_frame n =
    let durable = 1 ∷ 1 ∷ 101 ∷ zeros n in
    to_le_bytes (length durable) ++ (to_le_bytes 7 ++ durable)

pub entry-long_frame :
    (n : ℕ) → 3 + n < 2 ^ 32 → encode_entry (codec n) none (entry 1) ≡ ok (long_frame n)
unfolding encode_entry framed
entry-long_frame n h = let l = length-zeros n in ground arith

pub length-long_frame : (n : ℕ) → length (long_frame n) ≡ 11 + n
unfolding to_le_bytes
length-long_frame n = let l = length-zeros n in omega arith
