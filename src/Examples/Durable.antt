-- ===== src/Examples/Durable.antt =====
-- An instance of the theorem on batches and segments: CLEAR, as the first entry of a log.
use vaylix.Prelude.{
  ℕ, ◌+◌, ◌^◌, ◌<◌, ◌≡◌, refl, sym, ap, ◌∙◌, true, Option, none, some, List, [], ◌∷◌, ◌++◌, ok,
  arith, length,
}
use vaylix.Engine.State.{WalEntry, WalOperation, purge_expired, replay_entries}
use vaylix.Engine.Command.{Command}
use vaylix.Engine.Batch.{execute_command_batch}
use vaylix.Engine.Batch.Durable.{IsShort, on_files, execute_command_batch-durable}
use vaylix.Engine.Log.{StorageEnv}
use vaylix.Engine.Wal.{Codec, to_le_bytes, framed, encode_entry}
use vaylix.Engine.Wal.Frames.{IsReadable}
use vaylix.Engine.Wal.Files.{start}
use vaylix.Engine.Wal.Segments.{Segment, active_file, replayed, replay}
use vaylix.Engine.Wal.Log.{IsLog, done}
use vaylix.Engine.Wal.Writer.{WalWriter, append_batch}
use vaylix.Examples.{working, seeded, engine_on}

-- An entry with a CLEAR and nothing else is its fields; other entries are refused.
abbrev fields : WalEntry → List WalOperation → Option (List ℕ)
fields e (WalOperation.clear ∷ []) = some (e.sequence ∷ e.term ∷ e.created_at_ms ∷ [])
fields e _ = none

abbrev from_fields : List ℕ → Option WalEntry
from_fields (s ∷ t ∷ at ∷ []) =
    some
      (record { sequence = s; term = t; created_at_ms = at; operations = WalOperation.clear ∷ [] })
from_fields _ = none

fields_lem :
    (e : WalEntry) (operations : List WalOperation) {bytes : List ℕ}
    → e.operations ≡ operations
    → fields e operations ≡ some bytes
    → from_fields bytes ≡ some e
fields_lem e [] is h = cc
fields_lem e (WalOperation.clear ∷ []) {bytes} is h =
    let same : (e.sequence ∷ e.term ∷ e.created_at_ms ∷ []) ≡ bytes = cc in
    rw⁻¹ (same) (ap (λ o. some (record e { operations = o })) (sym is))
fields_lem e (WalOperation.clear ∷ _ ∷ _) is h = cc
fields_lem e (WalOperation.set _ _ _ ∷ _) is h = cc
fields_lem e (WalOperation.delete _ ∷ _) is h = cc
fields_lem e (WalOperation.expire _ _ ∷ _) is h = cc
fields_lem e (WalOperation.persist _ ∷ _) is h = cc
fields_lem e (WalOperation.check_integer _ _ ∷ _) is h = cc

abbrev codec : Codec
codec = record {
  encode = λ e. fields e e.operations;
  decode = from_fields;
  hash = λ bytes. 7;
  decode-encode = λ e. fields_lem e e.operations refl;
  hash-lt = λ bytes. omega arith;
}

abbrev cleared : WalEntry
cleared = record {
  sequence = 4;
  term = 2;
  created_at_ms = 10;
  operations = WalOperation.clear ∷ [];
}

abbrev frame : List ℕ
frame = to_le_bytes 3 ++ (to_le_bytes 7 ++ (4 ∷ 2 ∷ 10 ∷ []))

frame-IsReadable : IsReadable frame
unfolding to_le_bytes
frame-IsReadable = (omega arith, omega arith)

cleared-IsShort : IsShort codec none (λ _. none) cleared
unfolding encode_entry framed
cleared-IsShort bytes h = let same : frame ≡ bytes = cc in rw⁻¹ (same) frame-IsReadable

-- The directory of a new log, and its writer.
abbrev directory : List Segment
directory = (active_file 4, []) ∷ []

abbrev writer : WalWriter
writer = record { max_segment_size_bytes = 0; active = 4; opened = true; file_len = 0 }

directory-IsLog : IsLog codec none directory 4 4 [] 4
directory-IsLog = record {
  segments = [];
  bytes = [];
  old = [];
  new = [];
  chain = done;
  file = start;
  run = refl;
  shape = refl;
  entries = refl;
}

abbrev env : StorageEnv
env = on_files codec none (λ _. none) working.checksum writer directory

execute_command_batch-durable_example :
    (count : ℕ) × (replay codec none
        (append_batch codec none (λ _. none) (cleared ∷ []) writer directory).2
      ≡ ok (replayed count (cleared ∷ [])))
    × (replay_entries (cleared ∷ []) (purge_expired 10 seeded)
        ≡ ok (execute_command_batch env 10 (Command.clear ∷ []) (engine_on seeded)).1.state)
unfolding append_batch encode_entry execute_command_batch framed purge_expired replay_entries
    vaylix.Engine.Log.build_wal_entry_identities vaylix.Engine.Log.collect_identities
    vaylix.Engine.Log.lookup_identity vaylix.Engine.Store.expired vaylix.Engine.Store.expired_keys
    vaylix.Engine.Store.purge_expired vaylix.Engine.Store.remove_all
    vaylix.Engine.Transaction.evaluate vaylix.Engine.Transaction.run_command
    vaylix.Engine.Wal.Writer.write_entry vaylix.Engine.Wal.Writer.write_frame
    vaylix.Prelude.saturating_add vaylix.Table.contains_key vaylix.Table.insert vaylix.Table.lookup
    vaylix.Table.remove
execute_command_batch-durable_example =
    execute_command_batch-durable codec none (λ _. none) working.checksum 10 (Command.clear ∷ [])
      (engine_on seeded) (purge_expired 10 seeded) writer directory (omega arith) refl
      directory-IsLog refl refl (cleared-IsShort, tt) (omega arith)
