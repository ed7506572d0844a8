-- ===== src/Engine/Wal/Retain.antt =====
-- How the pruning of sealed segments of crates/engine/src/store/wal.rs leaves the last entries of a log.
use vaylix.Prelude.{
  ℕ, zero, suc, ◌-◌, ◌<◌, ◌≡◌, refl, sym, ap, ◌∙◌, Option, none, List, [], ◌∷◌, ◌++◌, append_assoc,
  ok, length, leb, arith, Bool-cases, inl, inr,
}
use vaylix.Engine.State.{WalEntry}
use vaylix.Engine.Wal.{Codec, Keyring}
use vaylix.Engine.Wal.Segments.{
  SegmentFile, Segment, sealed_file, active_file, list_segments, replayed, replay,
}
use vaylix.Engine.Wal.Log.{IsChain, done, more, IsLog, replay-IsLog, list_segments-IsChain}
use vaylix.Engine.Wal.Writer.{
  remove_file, sealed_segments, prune_loop, prune_sealed_segments_with_floor, prune_sealed_segments,
}

module _ (c : Codec) (keyring : Option Keyring) where
  abbrev files_of : List Segment → List SegmentFile
  files_of [] = []
  files_of (s ∷ segments) = s.0 ∷ files_of segments

  -- A directory with the last entries of a log.
  pub record IsPruned (m : ℕ) (es : List WalEntry) (bytes : List ℕ) (directory : List Segment)
      : Type 0 where
    from : ℕ
    segments : List Segment
    lost : List WalEntry
    left : List WalEntry
    chain : IsChain c keyring from segments m left
    shape : directory ≡ segments ++ (active_file m, bytes) ∷ []
    entries : lost ++ left ≡ es

  -- Nothing of a chain has the name of a segment that ends in front of it.
  remove_file-before :
      {n m : ℕ} {segments : List Segment} {es : List WalEntry} (k l : ℕ) (bytes : List ℕ)
      → IsChain c keyring n segments m es
      → k < n
      → remove_file (sealed_file k l) (segments ++ (active_file m, bytes) ∷ [])
        ≡ segments ++ (active_file m, bytes) ∷ []
  unfolding remove_file
  remove_file-before k l bytes done h = ground arith
  remove_file-before {n} k l bytes (more {l = l'} f le r g) h =
      let ih = remove_file-before k l bytes g (omega arith) in ground (arith, h)

  sealed_segments-IsChain :
      {n m : ℕ} {segments : List Segment} {es : List WalEntry} (bytes : List ℕ)
      → IsChain c keyring n segments m es
      → sealed_segments (segments ++ (active_file m, bytes) ∷ []) ≡ files_of segments
  unfolding sealed_segments
  sealed_segments-IsChain bytes done = refl
  sealed_segments-IsChain bytes (more f le r g) = rw (sealed_segments-IsChain bytes g) refl

  remove_file-first :
      (n l : ℕ) (b : List ℕ) (rest : List Segment)
      → remove_file (sealed_file n l) rest ≡ rest
      → remove_file (sealed_file n l) ((sealed_file n l, b) ∷ rest) ≡ rest
  unfolding remove_file
  remove_file-first n l b rest h = ground (arith, h)

  -- The loop takes segments off the front of a chain.
  prune_loop-IsChain :
      {n m : ℕ} {segments : List Segment} {es : List WalEntry} (count removed : ℕ) (bytes : List ℕ)
      → IsChain c keyring n segments m es
      → IsPruned m es bytes
          (prune_loop none count
            (files_of segments)
            removed
            (segments ++ (active_file m, bytes) ∷ [])).1
  unfolding prune_loop
  prune_loop-IsChain {n} {segments = segments} {es = es} zero removed bytes g = record {
    from = n;
    segments = segments;
    lost = [];
    left = es;
    chain = g;
    shape = refl;
    entries = refl;
  }
  prune_loop-IsChain (suc count) removed bytes done = record {
    from = _;
    segments = [];
    lost = [];
    left = [];
    chain = done;
    shape = refl;
    entries = refl;
  }
  prune_loop-IsChain (suc count) removed bytes
        (more {n = n} {l = l} {m = m} {bytes = b} {es = es} {rest = rest} {segments = segments} f le
          r g) =
      let rest_kept = remove_file-before n l bytes g (omega (arith, le)) in
      let first : remove_file (sealed_file n l)
            ((sealed_file n l, b) ∷ (segments ++ (active_file m, bytes) ∷ []))
          ≡ segments ++ (active_file m, bytes) ∷ [] =
        remove_file-first n l b _ rest_kept in
      let p = prune_loop-IsChain count (suc removed) bytes g in
      record {
        from = p.from;
        segments = p.segments;
        lost = es ++ p.lost;
        left = p.left;
        chain = p.chain;
        shape = rw (first) p.shape;
        entries = rw (append_assoc, p.entries) refl;
      }

  pub IsPruned-IsLog :
      {directory pruned : List Segment} {active n : ℕ} {es : List WalEntry} {m : ℕ}
      → (v : IsLog c keyring directory active n es m) → IsPruned active v.old v.bytes pruned
      → (from : ℕ) × (lost : List WalEntry) × (left : List WalEntry) × (lost ++ left ≡ es)
        × IsLog c keyring pruned active from left m
  IsPruned-IsLog {m = m} v p = (
    p.from,
    p.lost,
    p.left ++ v.new,
    sym (append_assoc p.lost p.left v.new) ∙ ap (λ xs. xs ++ v.new) p.entries ∙ sym v.entries,
    record {
      segments = p.segments;
      bytes = v.bytes;
      old = p.left;
      new = v.new;
      chain = p.chain;
      file = v.file;
      run = v.run;
      shape = p.shape;
      entries = refl;
    },
  )

  IsLog-IsPruned :
      {directory : List Segment} {active n : ℕ} {es : List WalEntry} {m : ℕ}
      → (v : IsLog c keyring directory active n es m) → IsPruned active v.old v.bytes directory
  IsLog-IsPruned {n = n} v = record {
    from = n;
    segments = v.segments;
    lost = [];
    left = v.old;
    chain = v.chain;
    shape = v.shape;
    entries = refl;
  }

  -- Pruning in front of a log leaves the last of its entries.
  pub prune_sealed_segments-IsPruned :
      {directory : List Segment} {active n : ℕ} {es : List WalEntry} {m : ℕ} (retain : ℕ)
      (v : IsLog c keyring directory active n es m)
      → IsPruned active v.old v.bytes (prune_sealed_segments retain directory).1
  unfolding prune_sealed_segments prune_sealed_segments_with_floor
  prune_sealed_segments-IsPruned {directory} {active} retain v =
      let listed : sealed_segments (list_segments directory) ≡ files_of v.segments =
        rw (v.shape, list_segments-IsChain c keyring v.bytes v.chain)
          (sealed_segments-IsChain v.bytes v.chain) in
      let loop = prune_loop-IsChain (length (files_of v.segments) - retain) 0 v.bytes v.chain in
      elim (Bool-cases (leb (length (files_of v.segments)) retain)) [
        | inl few ↦ rw (listed, few) (IsLog-IsPruned v)
        | inr many ↦ rw (listed, many, v.shape) loop
      ]

  -- Pruning with no floor removes whole segments from the front of the log: the replay of what is left
  -- gives the last entries of the log.
  pub prune_sealed_segments-replay :
      {directory : List Segment} {active n : ℕ} {es : List WalEntry} {m : ℕ} (retain : ℕ)
      → IsLog c keyring directory active n es m
      → (lost : List WalEntry) × (left : List WalEntry) × (count : ℕ) × (lost ++ left ≡ es)
        × (replay c keyring (prune_sealed_segments retain directory).1 ≡ ok (replayed count left))
  prune_sealed_segments-replay retain v =
      let (from, lost, left, entries, log) =
        IsPruned-IsLog v (prune_sealed_segments-IsPruned retain v) in
      let (count, read) = replay-IsLog c keyring log in (lost, left, count, entries, read)
