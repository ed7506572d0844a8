-- ===== src/Engine/Wal/Contiguous.antt =====
-- What the replay of crates/engine/src/store/wal.rs promises of its entries, whatever the files hold.
use vaylix.Prelude.{
  ℕ, suc, ◌+◌, ◌≡◌, refl, Option, none, some, List, [], ◌∷◌, ◌++◌, ok, err, ◌>>=◌, >>=-eq-ok, arith,
  length,
}
use vaylix.Engine.Error.{EngineError}
use vaylix.Engine.State.{WalEntry}
use vaylix.Engine.Wal.{Codec, Keyring, read_entries}
use vaylix.Engine.Wal.Segments.{
  Segment, unexpected, check_segment, check_contiguous, WalReplay, replay_loop, replay_segments,
  replay, list_segments, replayed,
}
use vaylix.Engine.Wal.Log.{Expects}

-- Each sequence is the one after that of the entry before; the first is the expected one, if any is.
abbrev pub Follows : Option ℕ → List WalEntry → Type 0
Follows x [] = Unit {0}
Follows x (e ∷ es) = Expects x e.sequence × Follows (some (suc e.sequence)) es

expected : (x : Option ℕ) (n : ℕ) → unexpected x n ≡ none → Expects x n
expected none n h = tt
expected (some x) n h = ground arith

check_contiguous-Follows :
    (x y : Option ℕ) (es rest : List WalEntry)
    → check_contiguous x es ≡ ok y
    → Follows y rest
    → Follows x (es ++ rest)
unfolding check_contiguous
check_contiguous-Follows x y [] rest h f = let same : x ≡ y = cc in rw (same) f
check_contiguous-Follows x y (e ∷ es) rest h f =
    by_unexpected (unexpected x e.sequence) refl h
      (λ k. check_contiguous-Follows (some (e.sequence + 1)) y es rest k f)
  where
    by_unexpected :
        (u : Option EngineError)
        → unexpected x e.sequence ≡ u
        → (elim u [ some error ↦ err error | none ↦ check_contiguous (some (e.sequence + 1)) es ])
          ≡ ok y
        → (check_contiguous (some (e.sequence + 1)) es ≡ ok y
            → Follows (some (e.sequence + 1)) (es ++ rest))
        → Follows x (e ∷ (es ++ rest))
    by_unexpected (some error) q k ih = cc
    by_unexpected none q k ih =
        let n : e.sequence + 1 ≡ suc e.sequence = omega arith in
        (expected x e.sequence q, rw⁻¹ (n) (ih k))

module _ (c : Codec) (keyring : Option Keyring) where
  replay_loop-Follows :
      (x : Option ℕ) (segments : List Segment) (es : List WalEntry)
      → replay_loop c keyring x segments ≡ ok es
      → Follows x es
  unfolding replay_loop
  replay_loop-Follows x [] es h = let same : [] ≡ es = cc in rw⁻¹ (same) tt
  replay_loop-Follows x (s ∷ segments) es h =
      let (entries, h1, k1) = >>=-eq-ok (read_entries c keyring s.1) _ h in
      let (u, h2, k2) = >>=-eq-ok (check_segment s.0 entries) _ k1 in
      let (y, h3, k3) = >>=-eq-ok (check_contiguous x entries) _ k2 in
      let (rest, h4, k4) = >>=-eq-ok (replay_loop c keyring y segments) _ k3 in
      let same : entries ++ rest ≡ es = cc in
      rw⁻¹ (same)
        (check_contiguous-Follows x y entries rest h3 (replay_loop-Follows y segments rest h4))

  -- Entries that a replay gives have consecutive sequences.
  pub replay-Follows :
      (directory : List Segment) (r : WalReplay)
      → replay c keyring directory ≡ ok r
      → Follows none r.entries
  unfolding replay replay_segments
  replay-Follows directory r h =
      let segments = list_segments directory in
      let read : (replay_loop c keyring none segments >>= λ es. ok (replayed (length segments) es))
          ≡ ok r =
        ground (arith, h) in
      let (es, h1, k1) = >>=-eq-ok (replay_loop c keyring none segments) _ read in
      let same : replayed (length segments) es ≡ r = cc in
      rw⁻¹ (same) (replay_loop-Follows none segments es h1)
