-- ===== src/Replication/Quorum/Commit.antt =====
-- The commit sequence of crates/server/src/replication/quorum.rs: it never goes back, stays within
-- what is applied locally, and moves only as far as enough voters have matched.
use vaylix.Prelude.{
  ℕ, zero, suc, ◌+◌, ◌-◌, ◌≤◌, ◌<◌, ◌≡◌, ◌⊎◌, inl, inr, refl, ◌∙◌, min, max, some, List, [], ◌∷◌,
  leb, length, All, arith, if◌then◌else◌,
}
use vaylix.Replication.State.{WriteAckMode, ClusterMember, ReplicationConfig, ReplicationState}
use vaylix.Replication.Quorum.{
  voters, matches_of, voter_match_sequences, insert_match, sort_matches, nth, nth_highest,
  nth_highest_voter_match, minimum, min_voter_match, voter_count, quorum_size,
  quorum_size_from_members, commit_candidate, recompute_commit_sequence,
}

-- How many of the matches have reached a sequence.
abbrev pub reached : ℕ → List ℕ → ℕ
reached c [] = 0
reached c (n ∷ matches) = if leb c n then suc (reached c matches) else reached c matches

abbrev IsSorted : List ℕ → Type 0
IsSorted [] = Unit
IsSorted (n ∷ matches) = All (λ m. n ≤ m) matches × IsSorted matches

reached-insert_match :
    (c n : ℕ) (matches : List ℕ) → reached c (insert_match n matches) ≡ reached c (n ∷ matches)
unfolding insert_match
reached-insert_match c n [] = refl
reached-insert_match c n (m ∷ matches) = ground (arith, reached-insert_match c n matches)

reached-sort_matches :
    (c : ℕ) (matches : List ℕ) → reached c (sort_matches matches) ≡ reached c matches
unfolding sort_matches
reached-sort_matches c [] = refl
reached-sort_matches c (n ∷ matches) =
    ground (arith, reached-insert_match c n (sort_matches matches), reached-sort_matches c matches)

length-insert_match :
    (n : ℕ) (matches : List ℕ) → length (insert_match n matches) ≡ suc (length matches)
unfolding insert_match
length-insert_match n [] = refl
length-insert_match n (m ∷ matches) = ground (arith, length-insert_match n matches)

length-sort_matches : (matches : List ℕ) → length (sort_matches matches) ≡ length matches
unfolding sort_matches
length-sort_matches [] = refl
length-sort_matches (n ∷ matches) =
    ground (arith, length-insert_match n (sort_matches matches), length-sort_matches matches)

All-insert_match :
    (a n : ℕ) (matches : List ℕ)
    → a ≤ n
    → All (λ m. a ≤ m) matches
    → All (λ m. a ≤ m) (insert_match n matches)
unfolding insert_match
All-insert_match a n [] h hs = (h, tt)
All-insert_match a n (m ∷ matches) h hs = ground (arith, All-insert_match a n matches h)

All-weaken :
    (a b : ℕ) (matches : List ℕ) → a ≤ b → All (λ m. b ≤ m) matches → All (λ m. a ≤ m) matches
All-weaken a b [] h hs = tt
All-weaken a b (m ∷ matches) h (g, gs) = (omega arith, All-weaken a b matches h gs)

insert_match-IsSorted :
    (n : ℕ) (matches : List ℕ) → IsSorted matches → IsSorted (insert_match n matches)
unfolding insert_match
insert_match-IsSorted n [] h = (tt, tt)
insert_match-IsSorted n (m ∷ matches) h =
    ground
      (arith, insert_match-IsSorted n matches, All-insert_match m n matches, All-weaken n m matches)

sort_matches-IsSorted : (matches : List ℕ) → IsSorted (sort_matches matches)
unfolding sort_matches
sort_matches-IsSorted [] = tt
sort_matches-IsSorted (n ∷ matches) =
    insert_match-IsSorted n (sort_matches matches) (sort_matches-IsSorted matches)

reached-All :
    (c : ℕ) (matches : List ℕ) → All (λ m. c ≤ m) matches → reached c matches ≡ length matches
reached-All c [] h = refl
reached-All c (m ∷ matches) h = ground (arith, reached-All c matches)

-- In a sorted list everything from a position on has reached what stands there.
nth-reached :
    (matches : List ℕ) (i : ℕ)
    → IsSorted matches
    → i < length matches
    → (c : ℕ) × (nth matches i ≡ some c) × (length matches ≤ reached c matches + i)
unfolding nth
nth-reached [] i s h = absurd (omega (arith, h))
nth-reached (n ∷ matches) zero (a, s) h = (n, refl, ground (arith, reached-All n matches a))
nth-reached (n ∷ matches) (suc i) (a, s) h =
    let (c, p, q) = nth-reached matches i s (omega (arith, h)) in (c, p, ground (arith, q))

nth_highest-reached :
    (quorum : ℕ) (matches : List ℕ)
    → 0 < quorum
    → quorum ≤ length matches ⊎ (matches ≡ [])
    → (c : ℕ) × (nth_highest quorum matches ≡ some c) × ((c ≡ 0) ⊎ (quorum ≤ reached c matches))
unfolding nth_highest
nth_highest-reached quorum [] pos h = (0, refl, inl refl)
nth_highest-reached quorum (n ∷ matches) pos h =
    let all = n ∷ matches in
    let i = length all - quorum in
    let (c, p, q) =
      nth-reached (sort_matches all) i (sort_matches-IsSorted all)
        (omega (arith, pos, length-sort_matches all)) in
    (c, p, ground (arith, q, reached-sort_matches c all, length-sort_matches all))

length-matches_of :
    (config : ReplicationConfig) (state : ReplicationState) (members : List ClusterMember)
    → length (matches_of config state members) ≡ length members
unfolding matches_of
length-matches_of config state [] = refl
length-matches_of config state (m ∷ members) = omega (arith, length-matches_of config state members)

quorum-fits :
    (config : ReplicationConfig) (state : ReplicationState) (members : List ClusterMember)
    → quorum_size (max (length members) 1) ≤ length (matches_of config state members)
      ⊎ (matches_of config state members ≡ [])
unfolding quorum_size matches_of
quorum-fits config state [] = inr refl
quorum-fits config state (m ∷ members) = inl (omega (arith, length-matches_of config state members))

reached-lower : (b c : ℕ) (matches : List ℕ) → b ≤ c → reached c matches ≤ reached b matches
reached-lower b c [] h = omega arith
reached-lower b c (m ∷ matches) h = ground (arith, reached-lower b c matches h)

commit_candidate-replica :
    (config : ReplicationConfig) (state : ReplicationState)
    → config.write_ack_mode ≡ WriteAckMode.replica
    → commit_candidate config state
      ≡ nth_highest (quorum_size_from_members state.members) (voter_match_sequences config state)
unfolding commit_candidate nth_highest_voter_match
commit_candidate-replica config state mode = rw (mode, commit_candidate) refl

-- The source's index is never past the end.
replica-candidate :
    (config : ReplicationConfig) (state : ReplicationState)
    → config.write_ack_mode ≡ WriteAckMode.replica
    → (c : ℕ) × (commit_candidate config state ≡ some c)
      × ((c ≡ 0)
          ⊎ (quorum_size_from_members state.members
              ≤ reached c (voter_match_sequences config state)))
unfolding commit_candidate nth_highest_voter_match voter_match_sequences quorum_size_from_members
    voter_count quorum_size
replica-candidate config state mode =
    let (c, p, q) =
      nth_highest-reached (quorum_size_from_members state.members)
        (voter_match_sequences config state) (omega arith)
        (quorum-fits config state (voters state.members)) in
    (c, commit_candidate-replica config state mode ∙ p, q)

-- Under majority acknowledgement the commit sequence moves only to a sequence that a quorum of the
-- voters has matched.
pub recompute_commit_sequence-quorum :
    (config : ReplicationConfig) (state : ReplicationState)
    → config.write_ack_mode ≡ WriteAckMode.replica
    → state.commit_sequence < (recompute_commit_sequence config state).commit_sequence
    → quorum_size_from_members state.members
      ≤ reached
          (recompute_commit_sequence config state).commit_sequence
          (voter_match_sequences config state)
unfolding recompute_commit_sequence
recompute_commit_sequence-quorum config state mode h =
    let (c, p, q) = replica-candidate config state mode in
    let new = (recompute_commit_sequence config state).commit_sequence in
    ground (arith, p, q, reached-lower new c (voter_match_sequences config state))

minimum-All : (matches : List ℕ) → All (λ m. minimum matches ≤ m) matches
unfolding minimum
minimum-All [] = tt
minimum-All (n ∷ []) = (omega arith, tt)
minimum-All (n ∷ m ∷ matches) = (
  omega arith,
  All-weaken (min n (minimum (m ∷ matches))) (minimum (m ∷ matches)) (m ∷ matches) (omega arith)
      (minimum-All (m ∷ matches)),
)

-- Under acknowledgement by all, it moves only to a sequence that every voter has matched.
pub recompute_commit_sequence-all :
    (config : ReplicationConfig) (state : ReplicationState)
    → config.write_ack_mode ≡ WriteAckMode.all
    → state.commit_sequence < (recompute_commit_sequence config state).commit_sequence
    → All
        (λ m. (recompute_commit_sequence config state).commit_sequence ≤ m)
        (voter_match_sequences config state)
unfolding recompute_commit_sequence commit_candidate min_voter_match
recompute_commit_sequence-all config state mode h =
    All-weaken (recompute_commit_sequence config state).commit_sequence
      (min_voter_match config state) (voter_match_sequences config state) (ground arith)
      (minimum-All (voter_match_sequences config state))

-- It never goes back, and never passes the larger of itself and what is applied locally.
pub recompute_commit_sequence-bounds :
    (config : ReplicationConfig) (state : ReplicationState)
    → (state.commit_sequence ≤ (recompute_commit_sequence config state).commit_sequence)
      × ((recompute_commit_sequence config state).commit_sequence
          ≤ max state.commit_sequence state.local_last_applied_sequence)
unfolding recompute_commit_sequence
recompute_commit_sequence-bounds config state = ground arith

-- Two quorums of the same voters have a voter in common.
pub quorum_size-overlap :
    (members a b : ℕ) → quorum_size members ≤ a → quorum_size members ≤ b → members < a + b
unfolding quorum_size
quorum_size-overlap members a b ha hb = omega arith
