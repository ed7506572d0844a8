-- ===== src/Engine/Wal/Until.antt =====
-- The recovery to a point of crates/engine/src/store/wal.rs: which entries `replay_until` gives.
use vaylix.Prelude.{
  ℕ, suc, ◌≤◌, ◌<◌, ◌≡◌, refl, ap, Option, none, some, List, [], ◌∷◌, ◌++◌, ok, leb, All, arith,
  Bool-cases, inl, inr,
}
use vaylix.Engine.State.{WalEntry}
use vaylix.Engine.Wal.{Codec, Keyring}
use vaylix.Engine.Wal.Frames.{>>=-ok_lem}
use vaylix.Engine.Wal.Segments.{
  Segment, WalReplay, replay, WalReplayTarget, within_target, take_while, cut_at, replay_until,
}
use vaylix.Engine.Wal.Contiguous.{Follows, replay-Follows}

-- All entries of a log that follow a sequence are above it.
Follows-above :
    (n k : ℕ) (es : List WalEntry) → Follows (some k) es → n < k → All (λ e. n < e.sequence) es
Follows-above n k [] f h = tt
Follows-above n k (e ∷ es) f h =
    let here : n < e.sequence = omega (arith, f.0, h) in
    (here, Follows-above n (suc e.sequence) es f.1 (omega (arith, here)))

-- The entries up to a sequence, and those above it.
pub record IsCut (n : ℕ) (es cut : List WalEntry) : Type 0 where
  pub above : List WalEntry
  pub whole : cut ++ above ≡ es
  pub within : All (λ e. e.sequence ≤ n) cut
  pub beyond : All (λ e. n < e.sequence) above

take_while-IsCut :
    (n : ℕ) (x : Option ℕ) (es : List WalEntry)
    → Follows x es
    → IsCut n es (take_while (within_target (WalReplayTarget.to_sequence n)) es)
unfolding take_while
take_while-IsCut n x [] f = record { above = []; whole = refl; within = tt; beyond = tt }
take_while-IsCut n x (e ∷ es) f = elim (Bool-cases (leb e.sequence n)) [
  | inl here ↦
      let rest = take_while-IsCut n (some (suc e.sequence)) es f.1 in
      rw (here) (record {
        above = rest.above;
        whole = ap (λ xs. e ∷ xs) rest.whole;
        within = (ground (arith, here), rest.within);
        beyond = rest.beyond;
      })
  | inr past ↦
      let over : n < e.sequence = ground (arith, past) in
      rw (past) (record {
        above = e ∷ es;
        whole = refl;
        within = tt;
        beyond = (over, Follows-above n (suc e.sequence) es f.1 (omega (arith, over)));
      })
]

module _ (c : Codec) (keyring : Option Keyring) where
  pub replay_until-cut_at :
      (directory : List Segment) (target : WalReplayTarget) (r : WalReplay)
      → replay c keyring directory ≡ ok r
      → replay_until c keyring directory target ≡ ok (cut_at target r)
  unfolding replay_until
  replay_until-cut_at directory target r h = >>=-ok_lem _ h

  pub cut_at-IsCut :
      (directory : List Segment) (n : ℕ) (r : WalReplay)
      → replay c keyring directory ≡ ok r
      → IsCut n r.entries (cut_at (WalReplayTarget.to_sequence n) r).entries
  cut_at-IsCut directory n r h =
      take_while-IsCut n none r.entries (replay-Follows c keyring directory r h)

  -- If a directory replays, its replay up to a sequence gives the first entries of the whole
  -- replay, all those with a sequence up to it and no other.
  pub replay_until-IsCut :
      (directory : List Segment) (n : ℕ) (r : WalReplay)
      → replay c keyring directory ≡ ok r
      → (cut : WalReplay) × (replay_until c keyring directory (WalReplayTarget.to_sequence n)
          ≡ ok cut)
        × IsCut n r.entries cut.entries
  replay_until-IsCut directory n r h = (
    cut_at (WalReplayTarget.to_sequence n) r,
    replay_until-cut_at directory (WalReplayTarget.to_sequence n) r h,
    cut_at-IsCut directory n r h,
  )
