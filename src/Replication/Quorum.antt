-- ===== src/Replication/Quorum.antt =====
-- crates/server/src/replication/quorum.rs.
pub mod Commit
use vaylix.Prelude.{
  ℕ, zero, suc, ◌+◌, ◌-◌, ◌/◌, min, max, String, Bool, true, false, Option, none, some, List, [],
  ◌∷◌, leb, str_eq, length, if◌then◌else◌,
}
use vaylix.Table.{Table, lookup}
use vaylix.Replication.State.{
  WriteAckMode, ClusterMember, ReplicationConfig, FollowerProgress, ReplicationState,
}

-- `state.members.values().filter(|member| member.voter)`
unfoldable pub voters : Table ClusterMember → List ClusterMember
voters [] = []
voters ((k, m) ∷ members) = let rest = voters members in if m.voter then m ∷ rest else rest

unfoldable pub match_of : ReplicationConfig → ReplicationState → ClusterMember → ℕ
match_of config state member =
    if str_eq member.node_id config.node_id
    then state.local_last_applied_sequence
    else elim (lookup member.node_id state.followers) [ none ↦ 0 | some p ↦ p.match_index ]

unfoldable pub matches_of : ReplicationConfig → ReplicationState → List ClusterMember → List ℕ
unfolding match_of
matches_of config state [] = []
matches_of config state (m ∷ members) = match_of config state m ∷ matches_of config state members

unfoldable pub voter_match_sequences : ReplicationConfig → ReplicationState → List ℕ
unfolding voters matches_of
voter_match_sequences config state = matches_of config state (voters state.members)

-- `matches.sort_unstable()`
unfoldable pub insert_match : ℕ → List ℕ → List ℕ
insert_match n [] = n ∷ []
insert_match n (m ∷ matches) = if leb n m then n ∷ m ∷ matches else m ∷ insert_match n matches

unfoldable pub sort_matches : List ℕ → List ℕ
unfolding insert_match
sort_matches [] = []
sort_matches (n ∷ matches) = insert_match n (sort_matches matches)

-- `matches[index]`; past the end the source would panic.
unfoldable pub nth : List ℕ → ℕ → Option ℕ
nth [] i = none
nth (n ∷ matches) zero = some n
nth (n ∷ matches) (suc i) = nth matches i

-- The match at `len - quorum` of the sorted ones, 0 if there are none.
unfoldable pub nth_highest : ℕ → List ℕ → Option ℕ
unfolding sort_matches nth
nth_highest quorum [] = some 0
nth_highest quorum (n ∷ matches) = nth (sort_matches (n ∷ matches)) (length (n ∷ matches) - quorum)

unfoldable pub nth_highest_voter_match : ReplicationConfig → ReplicationState → ℕ → Option ℕ
unfolding voter_match_sequences nth_highest
nth_highest_voter_match config state quorum =
    nth_highest quorum (voter_match_sequences config state)

unfoldable pub minimum : List ℕ → ℕ
minimum [] = 0
minimum (n ∷ []) = n
minimum (n ∷ m ∷ matches) = min n (minimum (m ∷ matches))

unfoldable pub min_voter_match : ReplicationConfig → ReplicationState → ℕ
unfolding voter_match_sequences minimum
min_voter_match config state = minimum (voter_match_sequences config state)

unfoldable pub voter_count : Table ClusterMember → ℕ
unfolding voters
voter_count members = max (length (voters members)) 1

unfoldable pub quorum_size : ℕ → ℕ
quorum_size member_count = member_count / 2 + 1

unfoldable pub quorum_size_from_members : Table ClusterMember → ℕ
unfolding quorum_size voter_count
quorum_size_from_members members = quorum_size (voter_count members)

-- `none` stands for the panic of an index past the end.
unfoldable pub commit_candidate : ReplicationConfig → ReplicationState → Option ℕ
unfolding nth_highest_voter_match quorum_size_from_members min_voter_match
commit_candidate config state = elim config.write_ack_mode [
  | WriteAckMode.local ↦ some state.local_last_applied_sequence
  | WriteAckMode.replica ↦
      nth_highest_voter_match config state (quorum_size_from_members state.members)
  | WriteAckMode.all ↦ some (min_voter_match config state)
]

-- A panic leaves the state as it was.
unfoldable pub recompute_commit_sequence : ReplicationConfig → ReplicationState → ReplicationState
unfolding commit_candidate
recompute_commit_sequence config state = elim (commit_candidate config state) [
  | none ↦ state
  | some n ↦ record state {
    commit_sequence = max state.commit_sequence (min n state.local_last_applied_sequence);
  }
]
