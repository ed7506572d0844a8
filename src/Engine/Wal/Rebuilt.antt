-- ===== src/Engine/Wal/Rebuilt.antt =====
-- Logs that are written anew hold the given entries: `write_entries` of crates/engine/src/store/wal.rs
-- and its callers.
use vaylix.Prelude.{
  ℕ, suc, ◌≤◌, ◌<◌, ◌≡◌, refl, sym, ◌∙◌, true, Option, none, some, List, [], ◌∷◌, ◌++◌, ok, u64_max,
  saturating_add, saturating_add_exact, All, arith,
}
use vaylix.Engine.State.{WalEntry}
use vaylix.Engine.Wal.{Codec, Keyring, read_entries}
use vaylix.Engine.Wal.Files.{IsFile, start, read_entries-IsFile}
use vaylix.Engine.Wal.Segments.{
  SegmentFile, Segment, active_file, is_active, list_segments, count_active, WalReplay, replayed,
  replay,
}
use vaylix.Engine.Wal.Log.{
  IsRun, IsChain, done, more, IsLog, replay-IsLog, list_segments-IsChain, count_active-IsChain,
}
use vaylix.Engine.Wal.Append.{IsSound, IsWritten, append_batch-IsWritten}
use vaylix.Engine.Wal.Writer.{
  WalWriter, open_writer, close_active, create_file, contents, first_active,
}
use vaylix.Engine.Wal.Renew.{first_active-IsChain}
use vaylix.Engine.Wal.Served.{IsServed, reopened}
use vaylix.Engine.Wal.Fresh.{
  WalSegmentReport, first_start, inspect, Rewritten, write_entries, reported, migrate_legacy,
  reset_on, replace_segments,
}

reported-ok :
    (w : Rewritten) (legacy : Option (List ℕ))
    → w.0 ≡ ok tt
    → reported w legacy ≡ (ok (inspect w.1), none, w.1)
reported-ok w legacy h = rw (h) refl

module _ (c : Codec) (keyring : Option Keyring) where
  first_start-IsChain :
      {n m : ℕ} {segments : List Segment} {es : List WalEntry} (bytes : List ℕ)
      → IsChain c keyring n segments m es
      → first_start (segments ++ (active_file m, bytes) ∷ []) ≡ some n
  first_start-IsChain bytes done = refl
  first_start-IsChain bytes (more f le r g) = refl

  -- The report on a log names the sequence of its first entry, that of its active segment, of which
  -- there is one.
  pub inspect-IsLog :
      {directory : List Segment} {active n : ℕ} {es : List WalEntry} {m : ℕ}
      → IsLog c keyring directory active n es m
      → let report = inspect directory in
        (report.oldest_retained_sequence ≡ some n)
        × (report.active_start_sequence ≡ active)
        × (report.active_segment_count ≡ 1)
  unfolding inspect
  inspect-IsLog v =
      rw
        (
          v.shape,
          list_segments-IsChain c keyring v.bytes v.chain,
          first_active-IsChain c keyring v.bytes v.chain,
        )
        (first_start-IsChain v.bytes v.chain, refl, count_active-IsChain c keyring v.bytes v.chain)

  pub created-IsLog : (n : ℕ) → IsLog c keyring (create_file (active_file n) []) n n [] n
  unfolding create_file contents
  created-IsLog n = record {
    segments = [];
    bytes = [];
    old = [];
    new = [];
    chain = done;
    file = start;
    run = refl;
    shape = refl;
    entries = refl;
  }

  fresh-IsServed :
      (max_size n : ℕ) → let w = open_writer max_size n [] in IsServed c keyring true n [] n w.0 w.1
  unfolding open_writer list_segments first_active create_file contents
  fresh-IsServed max_size n = record {
    state = refl;
    log = record {
      segments = [];
      bytes = [];
      old = [];
      new = [];
      chain = done;
      file = start;
      run = refl;
      shape = refl;
      entries = refl;
    };
  }

  module _ (torn : WalEntry → Option ℕ) (max_size : ℕ) where
    -- What `write_entries` leaves of entries.
    record IsWhole (n : ℕ) (es : List WalEntry) (k : ℕ) (r : Rewritten) : Type 0 where
      result : r.0 ≡ ok tt
      active : ℕ
      log : IsLog c keyring r.1 active n es k

    write_entries-IsWhole :
        {n k : ℕ} (e : WalEntry) (entries : List WalEntry)
        → All (IsSound c keyring torn) (e ∷ entries)
        → IsRun n (e ∷ entries) k
        → k ≤ u64_max
        → IsWhole n (e ∷ entries) k (write_entries c keyring torn max_size (e ∷ entries))
    unfolding write_entries
    write_entries-IsWhole {n} {k} e entries s r fits =
        let opened = open_writer max_size e.sequence [] in
        let fresh : IsServed c keyring true n [] n opened.0 opened.1 =
          rw⁻¹ (r.0) (fresh-IsServed max_size e.sequence) in
        let w =
          append_batch-IsWritten c keyring torn (e ∷ entries) opened.0 opened.1 fresh.log
            fresh.state s r fits in
        record { result = w.result; active = _; log = w.log }

    -- The replay of rewritten files.
    write_entries-replay :
        (n k : ℕ) (entries : List WalEntry)
        → All (IsSound c keyring torn) entries
        → IsRun n entries k
        → k ≤ u64_max
        → let w = write_entries c keyring torn max_size entries in
          (w.0 ≡ ok tt) × (count : ℕ) × (replay c keyring w.1 ≡ ok (replayed count entries))
    unfolding write_entries replay vaylix.Engine.Wal.Segments.replay_segments count_active
        list_segments vaylix.Engine.Wal.Segments.replay_loop
    write_entries-replay n k [] s r fits = (refl, 0, refl)
    write_entries-replay n k (e ∷ entries) s r fits =
        let w = write_entries-IsWhole e entries s r fits in
        let (count, read) = replay-IsLog c keyring w.log in (w.result, count, read)

    -- A legacy file of sound entries with consecutive sequences is migrated: the file is removed, and the
    -- replay of the segments gives its entries.
    pub migrate_legacy-replay :
        (n k : ℕ) {entries : List WalEntry} {bytes : List ℕ} (directory : List Segment)
        → IsFile c keyring entries bytes
        → All (IsSound c keyring torn) entries
        → IsRun n entries k
        → k ≤ u64_max
        → (report : WalSegmentReport) × (files : List Segment) × (count : ℕ) × (migrate_legacy c
              keyring torn max_size
              (some bytes)
              directory
            ≡ (ok report, none, files))
          × (replay c keyring files ≡ ok (replayed count entries))
    unfolding migrate_legacy
    migrate_legacy-replay n k {entries = entries} {bytes = bytes} directory f s r fits =
        let files = write_entries c keyring torn max_size entries in
        let (result, count, read) = write_entries-replay n k entries s r fits in
        (
          inspect files.1,
          files.1,
          count,
          rw (read_entries-IsFile c keyring f, migrate_legacy)
              (reported-ok files (some bytes) result),
          read,
        )

    reset_on-IsWritten :
        {n k : ℕ} {es : List WalEntry} (at : ℕ) (writer : WalWriter) (w : Rewritten)
        → IsWhole n es k w
        → IsWritten c keyring n es k (reset_on max_size w at writer)
    reset_on-IsWritten at writer w v =
        let o = reopened c keyring max_size at v.log in
        rw (v.result) (record { result = refl; opened = o.state; log = o.log })

    created-IsWhole : (n : ℕ) → IsWhole n [] n (ok tt, create_file (active_file n) [])
    created-IsWhole n = record { result = refl; active = n; log = created-IsLog n }

    -- When sound entries with consecutive sequences take the place of the log, the writer is open behind
    -- them; with no entries, the log starts behind the baseline.
    pub replace_segments-IsWritten :
        (n k baseline : ℕ) (retained : List WalEntry) (writer : WalWriter)
        → All (IsSound c keyring torn) retained
        → IsRun n retained k
        → k ≤ u64_max
        → baseline < u64_max
        → (retained ≡ [] → n ≡ suc baseline)
        → IsWritten c keyring n retained k
            (replace_segments c keyring torn max_size baseline retained writer)
    unfolding replace_segments
    replace_segments-IsWritten n k baseline [] writer s r fits room h =
        let after : saturating_add baseline 1 ≡ n =
          saturating_add_exact baseline 1 (omega arith) ∙ omega (arith, h refl) in
        let same : k ≡ n = sym r in
        rw (after, same) (reset_on-IsWritten n (close_active writer) _ (created-IsWhole n))
    replace_segments-IsWritten n k baseline (e ∷ retained) writer s r fits room h =
        reset_on-IsWritten _ (close_active writer) _ (write_entries-IsWhole e retained s r fits)
