-- ===== src/Engine/Wal/Served.antt =====
-- What the I/O thread of crates/engine/src/store/wal.rs makes of the log, over any sequence of commands.
use vaylix.Prelude.{
  ℕ, suc, ◌≤◌, ◌≡◌, refl, ap, ◌∙◌, Bool, true, false, Option, List, [], ◌∷◌, ◌++◌, append_assoc,
  append-nil, Result, ok, err, u64_max, All, All-cut, arith,
}
use vaylix.Engine.Error.{EngineError, io}
use vaylix.Engine.State.{WalEntry}
use vaylix.Engine.Wal.{Codec, Keyring}
use vaylix.Engine.Wal.Segments.{Segment, replayed, replay}
use vaylix.Engine.Wal.Log.{IsRun, IsRun-le, IsLog, replay-IsLog, list_segments-IsChain}
use vaylix.Engine.Wal.Append.{IsSound, append_batch-IsWritten}
use vaylix.Engine.Wal.Writer
use vaylix.Engine.Wal.Writer.{
  WalWriter, Written, then_written, open_writer, write_entry, or_zero, contents, create_file,
}
use vaylix.Engine.Wal.Renew.{first_active-IsChain, create_file-again}
use vaylix.Engine.Wal.Worker.{
  WalWriterCommand, append_batch, close_active, shutdown, reset, Served, answered,
  run_wal_writer_worker, accepted,
}

-- A run of sequences that is cut in two.
IsRun-cut :
    (n k : ℕ) (es more : List WalEntry)
    → IsRun n (es ++ more) k
    → (m : ℕ) × IsRun n es m × IsRun m more k
IsRun-cut n k [] more h = (n, refl, h)
IsRun-cut n k (e ∷ es) more h = let (m, a, b) = IsRun-cut (suc n) k es more h.1 in (m, (h.0, a), b)

module _ (c : Codec) (keyring : Option Keyring) where
  -- A log with its writer: whether it is open is `opened`.
  pub record IsServed (opened : Bool) (n : ℕ) (es : List WalEntry) (m : ℕ) (writer : WalWriter)
      (directory : List Segment) : Type 0 where
    pub state : writer.opened ≡ opened
    pub log : IsLog c keyring directory writer.active n es m

  -- Opening a log at its active file changes no file.
  pub reopened :
      {directory : List Segment} {active n m : ℕ} {es : List WalEntry} (max_size at : ℕ)
      → IsLog c keyring directory active n es m
      → let w = open_writer max_size at directory in IsServed true n es m w.0 w.1
  unfolding open_writer
  reopened {directory} {active} {n} {m} {es} max_size at v =
      let listed =
        ap Writer.first_active (list_segments-IsChain c keyring v.bytes v.chain)
        ∙ first_active-IsChain c keyring v.bytes v.chain in
      let again = create_file-again c keyring v.bytes v.chain in
      rw (v.shape, listed, again)
        (record {
          state = refl;
          log = record {
            segments = v.segments;
            bytes = v.bytes;
            old = v.old;
            new = v.new;
            chain = v.chain;
            file = v.file;
            run = v.run;
            shape = refl;
            entries = v.entries;
          };
        })

  append_batch-closed :
      (torn : WalEntry → Option ℕ) (entries : List WalEntry) (writer : WalWriter)
      (directory : List Segment)
      → writer.opened ≡ false
      → (r : Result EngineError (Unit {0})) × (Writer.append_batch c keyring torn entries writer
            directory
          ≡ (r, writer, directory))
  unfolding Writer.append_batch write_entry
  append_batch-closed torn [] writer directory h = (ok tt, refl)
  append_batch-closed torn (e ∷ entries) writer directory h = (err io, rw (h) refl)

  -- What the commands of the worker leave.
  pub record IsDone (n : ℕ) (es : List WalEntry) (m : ℕ) (s : Served) : Type 0 where
    pub opened : Bool
    pub served : IsServed opened n es m s.1 s.2

  IsDone-answered :
      {n m : ℕ} {es : List WalEntry} (w : Written) (rest : WalWriter → List Segment → Served)
      → IsDone n es m (rest w.1 w.2)
      → IsDone n es m (answered w rest)
  IsDone-answered w rest d = record { opened = d.opened; served = d.served }

  module _ (torn : WalEntry → Option ℕ) (max_size : ℕ) where
    -- Over any sequence of commands, the log gets the entries of the batches that come while the writer is
    -- open, in their order, and nothing else.
    pub run_wal_writer_worker-IsDone :
        {n m k : ℕ} {es : List WalEntry} (opened : Bool) (commands : List WalWriterCommand)
        (writer : WalWriter) (directory : List Segment)
        → IsServed opened n es m writer directory
        → All (IsSound c keyring torn) (accepted opened commands)
        → IsRun m (accepted opened commands) k
        → k ≤ u64_max
        → IsDone n
            (es ++ accepted opened commands)
            k
            (run_wal_writer_worker c keyring torn max_size commands writer directory)
    unfolding run_wal_writer_worker Writer.close_active
    run_wal_writer_worker-IsDone {es = es} opened [] writer directory v s r fits =
        rw⁻¹ (r) (rw (append-nil es) (record { opened = opened; served = v }))
    run_wal_writer_worker-IsDone {es = es} opened (shutdown ∷ commands) writer directory v s r
          fits =
        rw⁻¹ (r) (rw (append-nil es) (record { opened = opened; served = v }))
    run_wal_writer_worker-IsDone {m = m} {k = k} {es = es} true (append_batch entries ∷ commands)
          writer directory v s r fits =
        let (sound, sound_rest) =
          All-cut (IsSound c keyring torn) entries (accepted true commands) s in
        let (middle, run, run_rest) = IsRun-cut m k entries (accepted true commands) r in
        let after = Writer.append_batch c keyring torn entries writer directory in
        let w =
          append_batch-IsWritten c keyring torn entries writer directory v.log v.state sound run (
            let up = IsRun-le middle k (accepted true commands) run_rest in
            omega (arith, up, fits)) in
        rw⁻¹ (append_assoc es entries (accepted true commands)) (
          IsDone-answered after (run_wal_writer_worker c keyring torn max_size commands) (
            run_wal_writer_worker-IsDone {m = middle} {es = es ++ entries} true commands after.1
              after.2 (record { state = w.opened; log = w.log }) sound_rest run_rest fits))
    run_wal_writer_worker-IsDone {es = es} false (append_batch entries ∷ commands) writer directory
          v s r fits =
        let (answer, same) = append_batch-closed torn entries writer directory v.state in
        rw (same) (
          IsDone-answered (answer, writer, directory)
            (run_wal_writer_worker c keyring torn max_size commands)
            (run_wal_writer_worker-IsDone false commands writer directory v s r fits))
    run_wal_writer_worker-IsDone opened (close_active ∷ commands) writer directory v s r fits =
        IsDone-answered (ok tt, Writer.close_active writer, directory)
          (run_wal_writer_worker c keyring torn max_size commands)
          (run_wal_writer_worker-IsDone false commands (Writer.close_active writer) directory
            (record { state = refl; log = v.log }) s r fits)
    run_wal_writer_worker-IsDone opened (reset start ∷ commands) writer directory v s r fits =
        let w = open_writer max_size start directory in
        IsDone-answered (ok tt, w.0, w.1) (run_wal_writer_worker c keyring torn max_size commands)
          (run_wal_writer_worker-IsDone true commands w.0 w.1 (reopened max_size start v.log) s r
            fits)

    -- Whatever commands the worker takes on a log, the replay of its files gives the entries of
    -- before and those of the batches that came while the writer was open, in their order. These
    -- entries are encoded to a length that the reader takes and written whole, and have the next
    -- sequences, up to the largest `u64`.
    pub run_wal_writer_worker-replay :
        {n m k : ℕ} {es : List WalEntry} (opened : Bool) (commands : List WalWriterCommand)
        (writer : WalWriter) (directory : List Segment)
        → IsServed opened n es m writer directory
        → All (IsSound c keyring torn) (accepted opened commands)
        → IsRun m (accepted opened commands) k
        → k ≤ u64_max
        → (count : ℕ) × (replay c keyring
              (run_wal_writer_worker c keyring torn max_size commands writer directory).2
            ≡ ok (replayed count (es ++ accepted opened commands)))
    run_wal_writer_worker-replay opened commands writer directory v s r fits =
        let d = run_wal_writer_worker-IsDone opened commands writer directory v s r fits in
        replay-IsLog c keyring d.served.log
