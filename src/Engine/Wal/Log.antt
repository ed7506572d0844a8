-- ===== src/Engine/Wal/Log.antt =====
-- A directory of segments as a list of entries: what crates/engine/src/store/wal.rs replays of it.
use vaylix.Prelude.{
  ℕ, suc, ◌+◌, ◌≤◌, ◌≡◌, refl, ap, ◌∙◌, Option, none, some, List, [], ◌∷◌, ◌++◌, append_assoc,
  append-nil, Result, ok, err, ◌>>=◌, length, arith,
}
use vaylix.Engine.Error.{EngineError}
use vaylix.Engine.State.{WalEntry}
use vaylix.Engine.Wal.{Codec, Keyring}
use vaylix.Engine.Wal.Frames.{>>=-ok_lem}
use vaylix.Engine.Wal.Files.{IsFile, read_entries-IsFile}
use vaylix.Engine.Wal.Segments.{
  Segment, sealed_file, active_file, insert_segment, list_segments, count_active, last_sequence,
  check_segment, check_contiguous, replayed, replay_loop, replay_segments, replay,
}

-- Entries with the sequences from the first number up to, and without, the second.
abbrev pub IsRun : ℕ → List WalEntry → ℕ → Type 0
IsRun n [] m = n ≡ m
IsRun n (e ∷ es) m = (e.sequence ≡ n) × IsRun (suc n) es m

pub IsRun-append :
    (n m k : ℕ) (es more : List WalEntry) → IsRun n es m → IsRun m more k → IsRun n (es ++ more) k
IsRun-append n m k [] more h g = let same : n ≡ m = h in rw (same) g
IsRun-append n m k (e ∷ es) more h g = (h.0, IsRun-append (suc n) m k es more h.1 g)

pub IsRun-le : (n m : ℕ) (es : List WalEntry) → IsRun n es m → n ≤ m
IsRun-le n m [] h = omega arith
IsRun-le n m (e ∷ es) h = let g = IsRun-le (suc n) m es h.1 in omega arith

pub last_sequence-IsRun :
    (n m : ℕ) (e : WalEntry) (es : List WalEntry)
    → IsRun n (e ∷ es) m
    → suc (last_sequence e es) ≡ m
last_sequence-IsRun n m e [] h = ground (arith, h.0, h.1)
last_sequence-IsRun n m e (next ∷ es) h = last_sequence-IsRun (suc n) m next es h.1

-- The expected sequence, if one is.
abbrev pub Expects : Option ℕ → ℕ → Type 0
Expects none n = Unit {0}
Expects (some x) n = x ≡ n

abbrev pub expected_after : Option ℕ → List WalEntry → ℕ → Option ℕ
expected_after x [] m = x
expected_after x (e ∷ es) m = some m

check_contiguous-IsRun :
    (x : Option ℕ) (n m : ℕ) (es : List WalEntry)
    → Expects x n
    → IsRun n es m
    → check_contiguous x es ≡ ok (expected_after x es m)
unfolding check_contiguous
check_contiguous-IsRun x n m [] h r = refl
check_contiguous-IsRun none n m (e ∷ []) h r = ground (arith, r.0, r.1)
check_contiguous-IsRun (some x) n m (e ∷ []) h r = ground (arith, h, r.0, r.1)
check_contiguous-IsRun none n m (e ∷ f ∷ es) h r =
    check_contiguous-IsRun (some (e.sequence + 1)) (suc n) m (f ∷ es) (omega (arith, r.0)) r.1
check_contiguous-IsRun (some x) n m (e ∷ f ∷ es) h r =
    let ih =
      check_contiguous-IsRun (some (e.sequence + 1)) (suc n) m (f ∷ es) (omega (arith, r.0)) r.1 in
    ground (arith, h, r.0, ih)

Expects-after :
    (x : Option ℕ) (n m : ℕ) (es : List WalEntry)
    → Expects x n
    → IsRun n es m
    → Expects (expected_after x es m) m
Expects-after none n m [] h r = tt
Expects-after (some x) n m [] h r = omega (arith, h, r)
Expects-after x n m (e ∷ es) h r = refl

check_sealed :
    (n l : ℕ) (es : List WalEntry)
    → n ≤ l
    → IsRun n es (suc l)
    → check_segment (sealed_file n l) es ≡ ok tt
unfolding check_segment
check_sealed n l [] h r = absurd (omega (arith, h, r))
check_sealed n l (e ∷ es) h r =
    let last = last_sequence-IsRun n (suc l) e es r in
    let same : last_sequence e es ≡ l = omega (arith, last) in ground (arith, r.0, same)

check_active :
    (n m : ℕ) (es : List WalEntry) → IsRun n es m → check_segment (active_file n) es ≡ ok tt
unfolding check_segment
check_active n m [] r = refl
check_active n m (e ∷ es) r = ground (arith, r.0)

regrouped :
    (es more : List WalEntry) (r : Result EngineError (List WalEntry))
    → ((r >>= λ rest. ok (more ++ rest)) >>= λ rest. ok (es ++ rest))
      ≡ (r >>= λ rest. ok ((es ++ more) ++ rest))
regrouped es more (ok rest) = rw (append_assoc) refl
regrouped es more (err e) = refl

module _ (c : Codec) (keyring : Option Keyring) where
  -- Sealed segments, one behind the other.
  pub data IsChain : ℕ → List Segment → ℕ → List WalEntry → Type 0 where
    done : {n : ℕ} → IsChain n [] n []
    more :
        {n l m : ℕ} {bytes : List ℕ} {es rest : List WalEntry} {segments : List Segment}
        → IsFile c keyring es bytes
        → n ≤ l
        → IsRun n es (suc l)
        → IsChain (suc l) segments m rest
        → IsChain n ((sealed_file n l, bytes) ∷ segments) m (es ++ rest)

  -- The replay of a chain and of what is behind it.
  pub replay_loop-IsChain :
      {n m : ℕ} {segments : List Segment} {es : List WalEntry} (x : Option ℕ) (tail : List Segment)
      (r : Result EngineError (List WalEntry))
      → Expects x n
      → IsChain n segments m es
      → ((y : Option ℕ) → Expects y m → replay_loop c keyring y tail ≡ r)
      → replay_loop c keyring x (segments ++ tail) ≡ (r >>= λ rest. ok (es ++ rest))
  unfolding replay_loop
  replay_loop-IsChain x tail (ok rest) h done k = k x h
  replay_loop-IsChain x tail (err e) h done k = k x h
  replay_loop-IsChain {n} x tail r h (more {l = l} {es = es} {rest = rest} f le run g) k =
      >>=-ok_lem _ (read_entries-IsFile c keyring f)
      ∙ >>=-ok_lem _ (check_sealed n l es le run)
      ∙ >>=-ok_lem _ (check_contiguous-IsRun x n (suc l) es h run)
      ∙ rw
          (replay_loop-IsChain (expected_after x es (suc l)) tail r
            (Expects-after x n (suc l) es h run) g k)
          (regrouped es rest r)

  pub IsChain-le :
      {n m : ℕ} {segments : List Segment} {es : List WalEntry} → IsChain n segments m es → n ≤ m
  IsChain-le done = omega arith
  IsChain-le (more f le r g) = let h = IsChain-le g in omega arith

  pub count_active-IsChain :
      {n m : ℕ} {segments : List Segment} {es : List WalEntry} (bytes : List ℕ)
      → IsChain n segments m es
      → count_active (segments ++ (active_file m, bytes) ∷ []) ≡ 1
  unfolding count_active
  count_active-IsChain bytes done = refl
  count_active-IsChain bytes (more f le r g) = count_active-IsChain bytes g

  -- The files of a chain and the active one behind are in the order of their keys.
  pub list_segments-IsChain :
      {n m : ℕ} {segments : List Segment} {es : List WalEntry} (bytes : List ℕ)
      → IsChain n segments m es
      → list_segments (segments ++ (active_file m, bytes) ∷ [])
        ≡ segments ++ (active_file m, bytes) ∷ []
  unfolding list_segments insert_segment
  list_segments-IsChain bytes done = refl
  list_segments-IsChain bytes (more {l = l} f le r done) = ground (arith, le)
  list_segments-IsChain bytes (more f le r (more {l = l} f' le' r' g)) =
      rw (list_segments-IsChain bytes (more f' le' r' g)) (ground (arith, le, le'))

  -- The directory of a writer, its entries, and the sequences of the first and of the next one.
  pub record IsLog (directory : List Segment) (active n : ℕ) (es : List WalEntry) (m : ℕ)
      : Type 0 where
    pub segments : List Segment
    pub bytes : List ℕ
    pub old : List WalEntry
    pub new : List WalEntry
    pub chain : IsChain n segments active old
    pub file : IsFile c keyring new bytes
    pub run : IsRun active new m
    pub shape : directory ≡ segments ++ (active_file active, bytes) ∷ []
    pub entries : es ≡ old ++ new

  replay_active :
      (x : Option ℕ) (n m : ℕ) (bytes : List ℕ) (es : List WalEntry)
      → IsFile c keyring es bytes
      → IsRun n es m
      → Expects x n
      → replay_loop c keyring x ((active_file n, bytes) ∷ []) ≡ ok es
  unfolding replay_loop
  replay_active x n m bytes es f r h =
      >>=-ok_lem _ (read_entries-IsFile c keyring f)
      ∙ >>=-ok_lem _ (check_active n m es r)
      ∙ >>=-ok_lem _ (check_contiguous-IsRun x n m es h r)
      ∙ ap (λ t. ok t) (append-nil es)

  pub replay-IsLog :
      {directory : List Segment} {active n : ℕ} {es : List WalEntry} {m : ℕ}
      → IsLog directory active n es m
      → (count : ℕ) × (replay c keyring directory ≡ ok (replayed count es))
  unfolding replay replay_segments
  replay-IsLog {directory} {active} {n} {es} {m} v =
      let listed : list_segments directory ≡ v.segments ++ (active_file active, v.bytes) ∷ [] =
        rw (v.shape) (list_segments-IsChain v.bytes v.chain) in
      let read =
        replay_loop-IsChain none ((active_file active, v.bytes) ∷ []) (ok v.new) tt v.chain
          λ y h. replay_active y active m v.bytes v.new v.file v.run h in
      (
        length (v.segments ++ (active_file active, v.bytes) ∷ []),
        rw (listed, count_active-IsChain v.bytes v.chain, read, v.entries) refl,
      )
