-- ===== src/Engine/Follower/Since.antt =====
-- `wal_entries_since_capped` of crates/engine/src/engine/core.rs: what a leader sends.
use vaylix.Prelude.{
  ℕ, zero, suc, All-append, ◌⊎◌, inl, inr, ◌≤◌, ◌<◌, ◌≡◌, refl, Bool, true, false, ◌&&◌, Option,
  none, some, List, [], ◌∷◌, ◌++◌, ok, >>=-eq-ok, ltb, arith, length, take, keep, last?, All,
  if◌then◌else◌,
}
use vaylix.Engine.State.{WalEntry}
use vaylix.Engine.Log.{StorageEnv, Engine}
use vaylix.Engine.Recovery.Replay.{last_sequence}
use vaylix.Engine.Follower.{within, push_unique_wal_entry, push_all, wal_entries_since_capped}

-- The sequences grow strictly, from above a number.
abbrev pub IsAscending : ℕ → List WalEntry → Type 0
IsAscending n [] = Unit
IsAscending n (e ∷ entries) = (n < e.sequence) × IsAscending e.sequence entries

abbrev pub IsWithin : Option ℕ → List WalEntry → Type 0
IsWithin max entries = All (λ e. within max e.sequence ≡ true) entries

snoc-IsAscending :
    (n : ℕ) (out : List WalEntry) (e : WalEntry)
    → IsAscending n out
    → last_sequence n out < e.sequence
    → IsAscending n (out ++ (e ∷ []))
snoc-IsAscending n [] e h above = (above, tt)
snoc-IsAscending n (a ∷ out) e (h, hs) above = (h, snoc-IsAscending a.sequence out e hs above)

abbrev sequence_or : ℕ → Option WalEntry → ℕ
sequence_or n none = n
sequence_or n (some e) = e.sequence

pub last_sequence-last? :
    (n : ℕ) (out : List WalEntry) → last_sequence n out ≡ sequence_or n (last? out)
unfolding last?
last_sequence-last? n [] = refl
last_sequence-last? n (a ∷ []) = refl
last_sequence-last? n (a ∷ b ∷ out) = last_sequence-last? n (b ∷ out)

push_unique-cases :
    (env : StorageEnv) (n : ℕ) (out out' : List WalEntry) (e : WalEntry)
    → n < e.sequence
    → push_unique_wal_entry env out e ≡ ok out'
    → (out' ≡ out) ⊎ ((out' ≡ out ++ (e ∷ [])) × (last_sequence n out < e.sequence))
unfolding push_unique_wal_entry
push_unique-cases env n out out' e above p = ground (arith, last_sequence-last? n out)

-- What may be sent: a sequence after one number, and up to another.
abbrev wanted : ℕ → Option ℕ → WalEntry → Bool
wanted after max e = ltb after e.sequence && within max e.sequence

push_all-IsAscending :
    (env : StorageEnv) (n : ℕ) (max : Option ℕ) (entries out out' : List WalEntry)
    → All (λ e. wanted n max e ≡ true) entries
    → IsAscending n out
    → IsWithin max out
    → push_all env out entries ≡ ok out'
    → IsAscending n out' × IsWithin max out'
unfolding push_all
push_all-IsAscending env n max [] out out' w a b h =
    let e : out ≡ out' = cc in (rw (e) at a, rw (e) at b)
push_all-IsAscending env n max (e ∷ entries) out out' (w, ws) a b h =
    let (mid, p, q) = >>=-eq-ok (push_unique_wal_entry env out e) (λ o. push_all env o entries) h in
    let next : IsAscending n mid × IsWithin max mid =
      elim (push_unique-cases env n out mid e (ground arith) p) [
        | inl same ↦ (rw (same) a, rw (same) b)
        | inr (same, above) ↦ (
          rw (same) (snoc-IsAscending n out e a above),
          rw (same)
              (All-append (λ e. within max e.sequence ≡ true) out (e ∷ []) b (ground arith, tt)),
        )
      ] in
    push_all-IsAscending env n max entries mid out' ws next.0 next.1 q

keep-All {ℓ} : {A : Type ℓ} (p : A → Bool) (xs : List A) → All (λ x. p x ≡ true) (keep p xs)
keep-All p [] = tt
keep-All p (x ∷ xs) = go (p x) refl (keep-All p xs)
  where
    go :
        (b : Bool)
        → p x ≡ b
        → All (λ x. p x ≡ true) (keep p xs)
        → All (λ x. p x ≡ true) (keep p (x ∷ xs))
    go true q h = rw (q, keep, All) (q, h)
    go false q h = rw (q, keep) h

take-IsAscending :
    (k n : ℕ) (entries : List WalEntry) → IsAscending n entries → IsAscending n (take k entries)
take-IsAscending zero n entries h = tt
take-IsAscending (suc k) n [] h = tt
take-IsAscending (suc k) n (e ∷ entries) (h, hs) = (h, take-IsAscending k e.sequence entries hs)

take-IsWithin :
    (k : ℕ) (max : Option ℕ) (entries : List WalEntry)
    → IsWithin max entries
    → IsWithin max (take k entries)
take-IsWithin zero max entries h = tt
take-IsWithin (suc k) max [] h = tt
take-IsWithin (suc k) max (e ∷ entries) (h, hs) = (h, take-IsWithin k max entries hs)

length-take : (k : ℕ) (entries : List WalEntry) → length (take k entries) ≤ k
length-take zero entries = omega arith
length-take (suc k) [] = omega arith
length-take (suc k) (e ∷ entries) = omega (arith, length-take k entries)

-- What a leader sends after a sequence is strictly ascending from above it, stays within the maximum
-- if one is given, and has at most `limit` entries unless the limit is 0.
pub wal_entries_since_capped-IsAscending :
    (env : StorageEnv) (after limit : ℕ) (max : Option ℕ) (engine : Engine)
    (entries : List WalEntry)
    → wal_entries_since_capped env after limit max engine ≡ ok entries
    → IsAscending after entries × IsWithin max entries × ((limit ≡ 0) ⊎ (length entries ≤ limit))
unfolding wal_entries_since_capped
wal_entries_since_capped-IsAscending env after limit max engine entries h =
    let (all, p, q) =
      >>=-eq-ok (push_all env [] (keep (wanted after max) engine.wal_entries))
        (λ entries.
          ok (if ltb 0 limit && ltb limit (length entries) then take limit entries else entries))
        h in
    let (a, w) =
      push_all-IsAscending env after max (keep (wanted after max) engine.wal_entries) [] all
        (keep-All (wanted after max) engine.wal_entries) tt tt p in
    ground (
      arith,
      take-IsAscending limit after all a,
      take-IsWithin limit max all w,
      length-take limit all,
    )
