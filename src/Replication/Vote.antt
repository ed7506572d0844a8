-- ===== src/Replication/Vote.antt =====
-- `handle_vote_request` of crates/server/src/replication/mod.rs.
pub mod Outcome
use Prim.Native.String.{compare}
use Prim.Native.Nat.{Ordering}
use vaylix.Prelude.{
  ℕ, ◌+◌, String, Bool, true, false, ◌&&◌, ◌||◌, not, Option, none, some, List, [], ◌∷◌, Result, ok,
  err, ltb, leb, ◌==◌, str_eq, if◌then◌else◌,
}
use vaylix.Table.{Table, lookup, insert}
use vaylix.Replication.State.{
  ReplicationRole, is_leader, is_standalone, is_candidate, ClusterMember, ReplicationConfig,
  ReplicationState, ServerError, Moment, persisted, is_voting_member, names, or_zero,
  leader_lease_duration, recently_heard_from_known_leader, stepped_down,
}

pub record VoteRequest : Type 0 where
  pub term : ℕ
  pub candidate_node_id : String
  pub candidate_addr : String
  pub last_log_index : ℕ
  pub last_log_term : Option ℕ
  pub prevote : Bool

pub record VoteResponse : Type 0 where
  pub term : ℕ
  pub vote_granted : Bool

-- The order of Rust's strings, by their bytes.
abbrev str_ltb : String → String → Bool
str_ltb a b = elim (compare a b) [ Ordering.lt ↦ true | _ ↦ false ]

-- The candidate's log is at least as far as the local one.
unfoldable pub up_to_date : VoteRequest → ReplicationState → Bool
up_to_date request state =
    let local = or_zero state.local_last_applied_term in
    let remote = or_zero request.last_log_term in
    ltb local remote
    || (remote == local && leb state.local_last_applied_sequence request.last_log_index)

unfoldable pub prevote_granted : ReplicationConfig → ℕ → VoteRequest → ReplicationState → Bool
unfolding up_to_date
prevote_granted config now request state =
    let local = or_zero state.local_last_applied_term in
    let remote = or_zero request.last_log_term in
    let same_log = remote == local && request.last_log_index == state.local_last_applied_sequence in
    let voted_self = names state.voted_for config.node_id in
    let tie_break =
      state.current_term == request.term
      && is_candidate state.role
      && voted_self
      && (ltb local remote
          || (remote == local && ltb state.local_last_applied_sequence request.last_log_index)
          || (same_log && str_ltb config.node_id request.candidate_node_id)) in
    let known_leader = names state.leader_node_id request.candidate_node_id in
    let active_leader = is_leader state.role && not known_leader in
    let active_candidate =
      is_candidate state.role
      && leb request.term state.current_term
      && voted_self
      && not tie_break in
    let lower_priority =
      ltb 1 request.term && same_log && str_ltb request.candidate_node_id config.node_id in
    let uncommitted_tail =
      ltb state.commit_sequence state.local_last_applied_sequence
      && not (up_to_date request state) in
    up_to_date request state
    && not active_leader
    && not active_candidate
    && not lower_priority
    && not uncommitted_tail
    && (not (recently_heard_from_known_leader config now state) || known_leader)

-- A higher term is adopted before the vote is decided.
unfoldable pub adopt_term : Moment → ℕ → ReplicationState → ReplicationState
adopt_term moment term state = record state {
  current_term = term;
  voted_for = none;
  bootstrap_preferred = false;
  bootstrap_release_at = none;
  role = stepped_down state.role;
  followers = [];
  leader_node_id = none;
  leader_advertise_addr = none;
  health = "degraded";
  reason = some "awaiting_leader";
  next_election_at = moment.now + moment.election_timeout;
}

abbrev candidate_member : VoteRequest → Option ClusterMember → ClusterMember
candidate_member request none = record {
  node_id = request.candidate_node_id;
  advertise_addr = request.candidate_addr;
  voter = true;
}
candidate_member request (some m) = record m { advertise_addr = request.candidate_addr }

unfoldable pub cast_vote : ReplicationConfig → ℕ → VoteRequest → ReplicationState → ReplicationState
cast_vote config now request state =
    let lease = now + leader_lease_duration config in
    let candidate = request.candidate_node_id in
    record state {
      voted_for = some candidate;
      bootstrap_preferred = false;
      bootstrap_release_at = none;
      role = stepped_down state.role;
      next_election_at = lease;
      election_suppressed_until = some lease;
      members =
          insert candidate (candidate_member request (lookup candidate state.members))
            state.members;
    }

abbrev pub no_vote : Option String → Bool
no_vote none = true
no_vote (some other) = false

-- The vote once the term is settled; `fits` is `up_to_date`, which the source has computed before.
-- The source's test for an uncommitted tail asks for `!up_to_date` too and is never reached.
unfoldable pub decide_vote :
    ReplicationConfig
    → Moment
    → VoteRequest
    → Bool
    → ReplicationState
    → Result ServerError VoteResponse × ReplicationState
unfolding cast_vote
decide_vote config moment request fits state =
    let refused : VoteResponse = record { term = state.current_term; vote_granted = false } in
    let granted : VoteResponse = record { term = state.current_term; vote_granted = true } in
    let candidate = request.candidate_node_id in
    if recently_heard_from_known_leader config moment.now state
      && not (names state.leader_node_id candidate)
    then (ok refused, state)
    else if not fits
    then (ok refused, state)
    else if no_vote state.voted_for || names state.voted_for candidate
    then persisted moment granted (cast_vote config moment.now request state)
    else (ok refused, state)

-- The outcome of the `persist_state` after a new term is `persist_error` of the first moment; that
-- after the vote is of the second.
unfoldable pub handle_vote_request :
    ReplicationConfig
    → Moment
    → Moment
    → VoteRequest
    → ReplicationState
    → Result ServerError VoteResponse × ReplicationState
unfolding prevote_granted adopt_term decide_vote
handle_vote_request config moment later request state =
    let refused : VoteResponse = record { term = state.current_term; vote_granted = false } in
    let fits = up_to_date request state in
    let adopted = adopt_term moment request.term state in
    if not (is_voting_member state request.candidate_node_id)
    then (ok refused, state)
    else if ltb request.term state.current_term
    then (ok refused, state)
    else if request.prevote
    then (
      ok (record {
        term = state.current_term;
        vote_granted = prevote_granted config moment.now request state;
      }),
      state,
    )
    else if ltb state.current_term request.term
    then elim moment.persist_error [
      | some e ↦ (err e, adopted)
      | none ↦ decide_vote config later request fits adopted
    ]
    else decide_vote config later request fits state
