-- ===== src/Engine/Wal/Renew.antt =====
-- How a snapshot of crates/engine/src/engine/core.rs seals, renews and prunes the segments of the log.
use vaylix.Prelude.{
  ℕ, suc, ◌≤◌, ◌≡◌, refl, sym, ap, ◌∙◌, true, Option, none, some, List, [], ◌∷◌, ◌++◌, append-nil,
  Result, ok, ◌>>=◌, saturating_add, saturating_add_exact, u64_max, arith,
}
use vaylix.Engine.Error.{EngineError}
use vaylix.Engine.State.{WalEntry}
use vaylix.Engine.Wal.{Codec, Keyring, read_entries}
use vaylix.Engine.Wal.Frames.{>>=-ok_lem}
use vaylix.Engine.Wal.Files.{IsFile, start, read_entries-IsFile}
use vaylix.Engine.Wal.Segments.{Segment, sealed_file, active_file, list_segments, last_sequence}
use vaylix.Engine.Wal.Log.{
  IsRun, IsRun-le, last_sequence-IsRun, IsChain, done, more, IsLog, list_segments-IsChain,
}
use vaylix.Engine.Wal.Writer.{
  WalWriter, contents, create_file, first_active, open_writer, or_zero, seal_active, sealed_range,
  sealed_range, prune_sealed_segments,
}
use vaylix.Engine.Wal.Append.{IsChain-IsBelow, IsChain-snoc}
use vaylix.Engine.Wal.Directory.{contents_active, remove_file-active, renamed}
use vaylix.Engine.Wal.Retain.{IsPruned-IsLog, prune_sealed_segments-IsPruned}

module _ (c : Codec) (keyring : Option Keyring) where
  -- The writer has closed its file: the active segment is sealed, one that starts behind the last
  -- sequence is opened, and the oldest sealed ones are removed.
  unfoldable pub renew_segments :
      ℕ → ℕ → ℕ → List Segment → Result EngineError (WalWriter × List Segment)
  renew_segments max_size retain sequence directory =
      seal_active c keyring directory >>= λ (range, sealed).
      let active_wal_start_sequence = saturating_add sequence 1 in
      let created = create_file (active_file active_wal_start_sequence) sealed in
      let (writer, opened) = open_writer max_size active_wal_start_sequence created in
      ok (writer, (prune_sealed_segments retain opened).1)

  pub first_active-IsChain :
      {n m : ℕ} {segments : List Segment} {es : List WalEntry} (bytes : List ℕ)
      → IsChain c keyring n segments m es
      → first_active (segments ++ (active_file m, bytes) ∷ []) ≡ some (active_file m, bytes)
  unfolding first_active
  first_active-IsChain bytes done = refl
  first_active-IsChain bytes (more f le r g) = first_active-IsChain bytes g

  contents_active-IsChain :
      {n m : ℕ} {segments : List Segment} {es : List WalEntry} (k : ℕ)
      → IsChain c keyring n segments m es
      → contents (active_file k) segments ≡ none
  unfolding contents
  contents_active-IsChain k done = refl
  contents_active-IsChain k (more f le r g) = ground (arith, contents_active-IsChain k g)

  create_file-fresh :
      {n m : ℕ} {segments : List Segment} {es : List WalEntry} (k : ℕ)
      → IsChain c keyring n segments m es
      → create_file (active_file k) segments ≡ segments ++ (active_file k, []) ∷ []
  unfolding create_file
  create_file-fresh k g = ground (arith, contents_active-IsChain k g)

  pub create_file-again :
      {n m : ℕ} {segments : List Segment} {es : List WalEntry} (bytes : List ℕ)
      → IsChain c keyring n segments m es
      → create_file (active_file m) (segments ++ (active_file m, bytes) ∷ [])
        ≡ segments ++ (active_file m, bytes) ∷ []
  unfolding create_file
  create_file-again {m = m} {segments = segments} bytes g =
      ground (arith, contents_active m bytes segments (IsChain-IsBelow c keyring m g (omega arith)))

  -- The directory when a segment that starts at the next sequence is made behind sealed ones.
  record IsRenewed (max_size n m : ℕ) (segments : List Segment) (directory : List Segment)
      : Type 0 where
    written : WalWriter
    opens : open_writer max_size m directory ≡ (written, segments ++ (active_file m, []) ∷ [])
    is_open : written.opened ≡ true
    at : written.active ≡ m

  opened-IsRenewed :
      {n m : ℕ} {segments : List Segment} {es : List WalEntry} (max_size : ℕ)
      → IsChain c keyring n segments m es
      → IsRenewed max_size n m segments (create_file (active_file m) segments)
  unfolding open_writer
  opened-IsRenewed {n} {m} {segments} max_size g =
      let made = create_file-fresh m g in
      let listed = list_segments-IsChain c keyring [] g in
      let first = first_active-IsChain [] g in
      let again = create_file-again [] g in
      record {
        written = record {
          max_segment_size_bytes = max_size;
          active = m;
          opened = true;
          file_len = or_zero (contents (active_file m) (segments ++ (active_file m, []) ∷ []));
        };
        opens = rw (made, listed, first, again) refl;
        is_open = refl;
        at = refl;
      }

  -- What sealing leaves of a log: all of its entries, in sealed segments.
  record IsSealed (n m : ℕ) (es : List WalEntry) (directory : List Segment) : Type 0 where
    range : Option (ℕ × ℕ)
    segments : List Segment
    seals : seal_active c keyring directory ≡ ok (range, segments)
    chain : IsChain c keyring n segments m es

  seal_active-found :
      {s : Segment} {entries : List WalEntry} (directory : List Segment)
      → first_active (list_segments directory) ≡ some s
      → read_entries c keyring s.1 ≡ ok entries
      → seal_active c keyring directory ≡ ok (sealed_range c keyring s entries directory)
  unfolding seal_active
  seal_active-found directory h r = rw (h, seal_active) (>>=-ok_lem _ r)

  seal_active-IsSealed :
      {n m active : ℕ} (segments : List Segment) (bytes : List ℕ) (old new : List WalEntry)
      → IsChain c keyring n segments active old
      → IsFile c keyring new bytes
      → IsRun active new m
      → IsSealed n m (old ++ new) (segments ++ (active_file active, bytes) ∷ [])
  seal_active-IsSealed {n} {m} {active} segments bytes old [] g f r =
      let below = IsChain-IsBelow c keyring active g (omega arith) in
      let found =
        ap first_active (list_segments-IsChain c keyring bytes g) ∙ first_active-IsChain bytes g in
      let same : m ≡ active = sym r in
      record {
        range = none;
        segments = segments;
        seals =
            seal_active-found _ found (read_entries-IsFile c keyring f)
            ∙ ap (λ d. ok (none, d)) (remove_file-active active bytes segments below);
        chain = rw (append-nil old, same) g;
      }
  seal_active-IsSealed {m = m} {active = active} segments bytes old (e ∷ new) g f r =
      let below = IsChain-IsBelow c keyring active g (omega arith) in
      let found =
        ap first_active (list_segments-IsChain c keyring bytes g) ∙ first_active-IsChain bytes g in
      let l = last_sequence e new in
      let last : suc l ≡ m = last_sequence-IsRun active m e new r in
      let grown = IsRun-le (suc active) m new r.1 in
      record {
        range = some (active, l);
        segments = segments ++ (sealed_file active l, bytes) ∷ [];
        seals =
            seal_active-found _ found (read_entries-IsFile c keyring f)
            ∙ ap (λ d. ok (some (active, l), d)) (renamed active bytes l segments below);
        chain = rw⁻¹ (last) (IsChain-snoc c keyring g f (omega (arith, grown, last)) (rw (last) r));
      }

  IsLog-IsSealed :
      {directory : List Segment} {active n : ℕ} {es : List WalEntry} {m : ℕ}
      → IsLog c keyring directory active n es m
      → IsSealed n m es directory
  IsLog-IsSealed v =
      rw (v.shape, v.entries)
        (seal_active-IsSealed v.segments v.bytes v.old v.new v.chain v.file v.run)

  -- A log whose last sequence is that of the snapshot, below the largest `u64`, is renewed: the
  -- writer that a snapshot leaves is open at the next sequence, and its files are a log of the last
  -- entries of the old one.
  pub renew_segments-IsLog :
      {directory : List Segment} {active n : ℕ} {es : List WalEntry} (max_size retain sequence : ℕ)
      → IsLog c keyring directory active n es (suc sequence)
      → suc sequence ≤ u64_max
      → (writer : WalWriter) × (left_files : List Segment) × (lost : List WalEntry) × (left : List
          WalEntry)
        × (from : ℕ) × (renew_segments max_size retain sequence directory ≡ ok (writer, left_files))
        × (writer.opened ≡ true)
        × (writer.active ≡ suc sequence)
        × (lost ++ left ≡ es)
        × IsLog c keyring left_files writer.active from left (suc sequence)
  unfolding renew_segments
  renew_segments-IsLog {n = n} {es = es} max_size retain sequence v fits =
      let after : saturating_add sequence 1 ≡ suc sequence =
        saturating_add_exact sequence 1 (omega arith) ∙ omega arith in
      let s = IsLog-IsSealed v in
      let r = opened-IsRenewed max_size s.chain in
      let log : IsLog c keyring (s.segments ++ (active_file (suc sequence), []) ∷ []) (suc sequence)
          n es (suc sequence) =
        record {
          segments = s.segments;
          bytes = [];
          old = es;
          new = [];
          chain = s.chain;
          file = start;
          run = refl;
          shape = refl;
          entries = sym (append-nil es);
        } in
      let (from, lost, left, entries, pruned) =
        IsPruned-IsLog c keyring log (prune_sealed_segments-IsPruned c keyring retain log) in
      (
        r.written,
        (prune_sealed_segments retain (s.segments ++ (active_file (suc sequence), []) ∷ [])).1,
        lost,
        left,
        from,
        >>=-ok_lem _ s.seals ∙ rw (after, r.opens) refl,
        r.is_open,
        r.at,
        entries,
        rw (r.at) pruned,
      )
