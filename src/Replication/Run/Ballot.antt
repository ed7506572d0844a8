-- ===== src/Replication/Run/Ballot.antt =====
-- The votes of one node in crates/server/src/replication/mod.rs: what a granted vote says of the
-- request, and that a term has one vote as long as the node follows no leader's message.
use vaylix.Prelude.{
  ℕ, ◌+◌, ◌≤◌, ◌<◌, ◌≡◌, inl, inr, refl, String, Bool, true, false, ◌||◌, Option, none, some, List,
  [], ◌∷◌, Result, ok, err, Bool-cases, length, ltb, arith, eq_iff, str_eq, saturating_add, u64_max,
  All, if◌then◌else◌,
}
use vaylix.Replication.State.{
  ReplicationConfig, ReplicationState, ServerError, is_voting_member, Moment, tracking_phase, names,
  or_zero,
}
use vaylix.Replication.Quorum.{recompute_commit_sequence, quorum_size}
use vaylix.Replication.Progress.{
  set_local_last_applied_state, observe_leader_commit, update_follower_phase, set_paused,
  register_follower_ack, record_append_result, note_leader_activity, note_leader_frontier,
}
use vaylix.Replication.Vote.{
  VoteRequest, VoteResponse, up_to_date, no_vote, adopt_term, cast_vote, decide_vote,
  handle_vote_request,
}
use vaylix.Replication.Vote.Outcome.{
  unchanged, raised, raised_decided, decided, handle_vote_request-VoteOutcome,
}
use vaylix.Replication.Leadership.{
  defer_election, begin_election, finalize_election, observe_remote_term, promote_follower,
  add_member, remove_member, set_advertise_addr,
}
use vaylix.Replication.Run.{Event, handle, run_events}

-- The answer grants the vote.
abbrev pub granted : Result ServerError VoteResponse → Bool
granted (ok response) = response.vote_granted
granted (err e) = false

decide_vote-granted :
    (config : ReplicationConfig) (m : Moment) (r : VoteRequest) (fits : Bool) (s : ReplicationState)
    → granted (decide_vote config m r fits s).0 ≡ true
    → (fits ≡ true)
      × ((decide_vote config m r fits s).1.voted_for ≡ some r.candidate_node_id)
      × ((decide_vote config m r fits s).1.current_term ≡ s.current_term)
      × ((no_vote s.voted_for || names s.voted_for r.candidate_node_id) ≡ true)
unfolding decide_vote cast_vote
decide_vote-granted config m r fits s h = ground arith

-- The last entry of the candidate's log has a higher term, or the same term and no lower index.
pub data IsUpToDate (r : VoteRequest) (s : ReplicationState) : Type 0 where
  higher_term : or_zero s.local_last_applied_term < or_zero r.last_log_term → IsUpToDate r s
  same_term :
      or_zero r.last_log_term ≡ or_zero s.local_last_applied_term
      → s.local_last_applied_sequence ≤ r.last_log_index
      → IsUpToDate r s

up_to_date-IsUpToDate :
    (r : VoteRequest) (s : ReplicationState) → up_to_date r s ≡ true → IsUpToDate r s
unfolding up_to_date
up_to_date-IsUpToDate r s h = ground (arith, IsUpToDate.higher_term, IsUpToDate.same_term)

-- What holds when a vote, not a prevote, is granted.
pub record IsVote (config : ReplicationConfig) (r : VoteRequest) (s t : ReplicationState)
    : Type 0 where
  pub member : is_voting_member s r.candidate_node_id ≡ true
  pub fits : IsUpToDate r s
  pub recorded : t.voted_for ≡ some r.candidate_node_id
  pub term : t.current_term ≡ r.term
  pub not_stale : s.current_term ≤ r.term
  pub first :
      (ltb s.current_term r.term || no_vote s.voted_for || names s.voted_for r.candidate_node_id)
      ≡ true

-- A granted vote: the candidate is a voting member, the last entry of its log has a higher term than
-- the local one or the same term and no lower index, its term is not older, the node had no other
-- vote in that term, and term and vote are recorded.
pub handle_vote_request-IsVote :
    (config : ReplicationConfig) (m later : Moment) (r : VoteRequest) (s : ReplicationState)
    → r.prevote ≡ false
    → granted (handle_vote_request config m later r s).0 ≡ true
    → IsVote config r s (handle_vote_request config m later r s).1
unfolding handle_vote_request adopt_term
handle_vote_request-IsVote config m later r s p h =
    let here = decide_vote-granted config later r (up_to_date r s) s in
    let raised = decide_vote-granted config later r (up_to_date r s) (adopt_term m r.term s) in
    record {
      member = ground arith;
      fits = up_to_date-IsUpToDate r s (ground (arith, here, raised));
      recorded = ground (arith, here, raised);
      term = ground (arith, here, raised);
      not_stale = ground arith;
      first = ground (arith, here, raised);
    }

-- The node is past the term, or in it with a vote for the candidate.
data Held (term : ℕ) (candidate : String) (s : ReplicationState) : Type 0 where
  beyond : term < s.current_term → Held term candidate s
  within_term : s.current_term ≡ term → s.voted_for ≡ some candidate → Held term candidate s

-- Messages of a leader are followed, whatever the vote was; every other event is its own.
abbrev pub follows_leader : Event → Bool
follows_leader (Event.heartbeat m r) = true
follows_leader (Event.leader_status m l a t c f ms) = true
follows_leader _ = false

same-Held :
    {term : ℕ} {candidate : String} {s t : ReplicationState}
    → (t.current_term ≡ s.current_term) × (t.voted_for ≡ s.voted_for)
    → Held term candidate s
    → Held term candidate t
same-Held (e, f) h = ground arith

names-some :
    (v : Option String) (c d : String) → v ≡ some c → (no_vote v || names v d) ≡ true → c ≡ d
names-some none c d h g = cc
names-some (some x) c d h g = ground (arith, eq_iff x d)

decide_vote-Held :
    (config : ReplicationConfig) (m : Moment) (r : VoteRequest) (fits : Bool) {term : ℕ}
    {candidate : String} (s : ReplicationState)
    → Held term candidate s
    → Held term candidate (decide_vote config m r fits s).1
unfolding decide_vote cast_vote
decide_vote-Held config m r fits {term} {candidate} s h =
    ground (arith, names-some s.voted_for candidate r.candidate_node_id)

recompute-same :
    (config : ReplicationConfig) (s : ReplicationState)
    → ((recompute_commit_sequence config s).current_term ≡ s.current_term)
      × ((recompute_commit_sequence config s).voted_for ≡ s.voted_for)
unfolding recompute_commit_sequence
recompute-same config s = ground arith

module _ (config : ReplicationConfig) {term : ℕ} (small : term < u64_max) {candidate : String} where
  vote-Held :
      (m later : Moment) (r : VoteRequest) (s : ReplicationState)
      → Held term candidate s
      → Held term candidate (handle_vote_request config m later r s).1
  unfolding adopt_term
  vote-Held m later r s h = elim (handle_vote_request-VoteOutcome config m later r s) [
    | unchanged e ↦ rw (e) h
    | raised g e ↦ rw (e, adopt_term) (ground arith)
    | raised_decided g e ↦
        let up : Held term candidate (adopt_term m r.term s) = beyond (ground arith) in
        rw (e) (decide_vote-Held config later r _ (adopt_term m r.term s) up)
    | decided g e ↦ rw (e) (decide_vote-Held config later r _ s h)
  ]

  handle-Held :
      (e : Event) (s : ReplicationState)
      → follows_leader e ≡ false
      → Held term candidate s
      → Held term candidate (handle config e s)
  unfolding handle set_local_last_applied_state observe_leader_commit update_follower_phase
      set_paused register_follower_ack record_append_result note_leader_activity
      note_leader_frontier tracking_phase defer_election begin_election finalize_election
      observe_remote_term promote_follower add_member remove_member set_advertise_addr
      recompute_commit_sequence saturating_add
  handle-Held (Event.applied n t c) s f h = same-Held (ground arith) h
  handle-Held (Event.leader_commit n) s f h = same-Held (ground arith) h
  handle-Held (Event.phase p e m) s f h = same-Held (ground arith) h
  handle-Held (Event.pause b) s f h = same-Held (ground arith) h
  handle-Held (Event.ack now g n t l) s f h = same-Held (ground arith) h
  handle-Held (Event.append_result now g a n t l) s f h = same-Held (ground arith) h
  handle-Held (Event.activity now) s f h = same-Held (ground arith) h
  handle-Held (Event.frontier n) s f h = same-Held (ground arith) h
  handle-Held (Event.defer m) s f h = same-Held (refl, refl) h
  handle-Held (Event.begin m) s f h = ground (arith, small)
  handle-Held (Event.finalize m t v n) s f h = same-Held (ground arith) h
  handle-Held (Event.remote_term m t) s f h = ground arith
  handle-Held (Event.vote m later r) s f h = vote-Held m later r s h
  handle-Held (Event.heartbeat m r) s f h = cc
  handle-Held (Event.leader_status m l a t c g ms) s f h = cc
  handle-Held (Event.promote m b) s f h = ground (arith, small)
  handle-Held (Event.add m c) s f h = same-Held (ground arith) h
  handle-Held (Event.drop_member m n) s f h = same-Held (ground arith) h
  handle-Held (Event.advertise m a) s f h = same-Held (ground arith) h

  run_events-Held :
      (events : List Event) (s : ReplicationState)
      → All (λ e. follows_leader e ≡ false) events
      → Held term candidate s
      → Held term candidate (run_events config events s)
  unfolding run_events
  run_events-Held [] s f h = h
  run_events-Held (e ∷ events) s (f, fs) h =
      run_events-Held events (handle config e s) fs (handle-Held e s f h)

-- A node grants one vote per term: between two granted votes of the same term, with any operations
-- but the following of a leader in between, the candidate is the same. The term is below the largest
-- `u64`, where the source's increment stops.
pub single_vote :
    (config : ReplicationConfig) (m later m' later' : Moment) (a b : VoteRequest)
    (events : List Event) (s : ReplicationState)
    → a.term < u64_max
    → a.prevote ≡ false
    → b.prevote ≡ false
    → All (λ e. follows_leader e ≡ false) events
    → granted (handle_vote_request config m later a s).0 ≡ true
    → granted
        (handle_vote_request config m' later' b
          (run_events config events (handle_vote_request config m later a s).1)).0
      ≡ true
    → b.term ≡ a.term
    → a.candidate_node_id ≡ b.candidate_node_id
single_vote config m later m' later' a b events s small pa pb f ga gb same =
    let first = handle_vote_request-IsVote config m later a s pa ga in
    let after = (handle_vote_request config m later a s).1 in
    let again = run_events config events after in
    let second = handle_vote_request-IsVote config m' later' b again pb gb in
    let start : Held a.term a.candidate_node_id after = within_term first.term first.recorded in
    elim (run_events-Held config small events after f start) [
      | beyond p ↦ absurd (omega (arith, p, second.not_stale, same))
      | within_term n voted ↦
          names-some again.voted_for a.candidate_node_id b.candidate_node_id voted
            (ground (arith, second.first))
    ]

-- Of the votes that the nodes cast in one term, each for one candidate, those for a candidate.
abbrev pub votes_for : String → List (Option String) → ℕ
votes_for c [] = 0
votes_for c (v ∷ votes) = if names v c then votes_for c votes + 1 else votes_for c votes

votes-disjoint :
    (a b : String) (votes : List (Option String))
    → str_eq a b ≡ false
    → votes_for a votes + votes_for b votes ≤ length votes
votes-disjoint a b [] h = omega arith
votes-disjoint a b (none ∷ votes) h = omega (arith, votes-disjoint a b votes h)
votes-disjoint a b (some v ∷ votes) h =
    ground (arith, votes-disjoint a b votes h, eq_iff v a, eq_iff v b, eq_iff a b)

-- Two candidates that `finalize_election` lets lead in the same term, with as many votes as the nodes
-- have cast for them, one vote by node, are the same.
pub finalize_election_unique :
    (config config' : ReplicationConfig) (m m' : Moment) (term : ℕ) (s t : ReplicationState)
    (votes : List (Option String))
    → (finalize_election config m term (votes_for config.node_id votes) (length votes) s).0
      ≡ ok true
    → (finalize_election config' m' term (votes_for config'.node_id votes) (length votes) t).0
      ≡ ok true
    → config.node_id ≡ config'.node_id
unfolding finalize_election quorum_size
finalize_election_unique config config' m m' term s t votes h g =
    let overlap = votes-disjoint config.node_id config'.node_id votes in
    elim (Bool-cases (str_eq config.node_id config'.node_id)) [
      | inl e ↦ (eq_iff config.node_id config'.node_id).0 e
      | inr e ↦ absurd (ground (arith, overlap e))
    ]
