-- ===== src/Engine/Wal/Worker.antt =====
-- The I/O thread of crates/engine/src/store/wal.rs: `run_wal_writer_worker`, the commands that it
-- takes from its channel one after the other, and the answers that it sends. Every batch comes with the
-- same keyring.
use vaylix.Prelude.{ℕ, Bool, true, false, Option, List, [], ◌∷◌, ◌++◌, Result, ok}
use vaylix.Engine.Error.{EngineError}
use vaylix.Engine.State.{WalEntry}
use vaylix.Engine.Wal.{Codec, Keyring}
use vaylix.Engine.Wal.Segments.{Segment}
use vaylix.Engine.Wal.Writer
use vaylix.Engine.Wal.Writer.{WalWriter, Written, open_writer}

pub data WalWriterCommand : Type 0 where
  append_batch : List WalEntry → WalWriterCommand
  close_active shutdown : WalWriterCommand
  reset : ℕ → WalWriterCommand

-- The answers, the writer at the end and the files.
abbrev pub Served : Type 0
Served = List (Result EngineError (Unit {0})) × WalWriter × List Segment

abbrev pub answered : Written → (WalWriter → List Segment → Served) → Served
answered (r, writer, directory) rest =
    let (results, last, files) = rest writer directory in (r ∷ results, last, files)

module _ (c : Codec) (keyring : Option Keyring) (torn : WalEntry → Option ℕ) (max_size : ℕ) where
  unfoldable pub run_wal_writer_worker : List WalWriterCommand → WalWriter → List Segment → Served
  run_wal_writer_worker [] writer directory = ([], writer, directory)
  run_wal_writer_worker (append_batch entries ∷ commands) writer directory =
      answered (Writer.append_batch c keyring torn entries writer directory)
        (run_wal_writer_worker commands)
  run_wal_writer_worker (close_active ∷ commands) writer directory =
      answered (ok tt, Writer.close_active writer, directory) (run_wal_writer_worker commands)
  run_wal_writer_worker (reset start ∷ commands) writer directory =
      let (next, opened) = open_writer max_size start directory in
      answered (ok tt, next, opened) (run_wal_writer_worker commands)
  run_wal_writer_worker (shutdown ∷ commands) writer directory = ([], writer, directory)

-- The entries of the batches that come while the writer is open.
abbrev pub accepted : Bool → List WalWriterCommand → List WalEntry
accepted opened [] = []
accepted true (append_batch entries ∷ commands) = entries ++ accepted true commands
accepted false (append_batch entries ∷ commands) = accepted false commands
accepted opened (close_active ∷ commands) = accepted false commands
accepted opened (reset start ∷ commands) = accepted true commands
accepted opened (shutdown ∷ commands) = []
