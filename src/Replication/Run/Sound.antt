-- ===== src/Replication/Run/Sound.antt =====
-- What `assert_runtime_invariants` of crates/server/src/replication/mod.rs asserts, for every run.
use vaylix.Prelude.{
  ℕ, ◌≤◌, ◌≡◌, refl, String, Bool, true, false, ◌&&◌, Option, some, List, [], ◌∷◌, arith,
}
use vaylix.Replication.State.{
  is_standalone, is_candidate, FollowerPhase, ClusterMember, ReplicationConfig, ReplicationState,
  Moment, tracking_phase,
}
use vaylix.Replication.Quorum.{recompute_commit_sequence}
use vaylix.Replication.Progress.{
  set_local_last_applied_state, observe_leader_commit, update_follower_phase, set_paused,
  register_follower_ack, record_append_result, note_leader_activity, note_leader_frontier,
}
use vaylix.Replication.Vote.{
  VoteRequest, no_vote, adopt_term, cast_vote, decide_vote, handle_vote_request,
}
use vaylix.Replication.Vote.Outcome.{
  unchanged, raised, raised_decided, decided, handle_vote_request-VoteOutcome,
}
use vaylix.Replication.Leadership.{
  HeartbeatRequest, defer_election, begin_election, finalize_election, observe_remote_term,
  follow_leader, handle_heartbeat, observe_leader_status, promote_follower, add_member,
  remove_member, set_advertise_addr,
}
use vaylix.Replication.Run.{Event, handle, run_events}

-- Commit is bounded by local application, a standalone node commits what it applies, and a candidate
-- has recorded a vote.
pub record IsSound (state : ReplicationState) : Type 0 where
  pub bounded : state.commit_sequence ≤ state.local_last_applied_sequence
  pub alone :
      is_standalone state.role ≡ true → state.local_last_applied_sequence ≤ state.commit_sequence
  pub voted : (is_candidate state.role && no_vote state.voted_for) ≡ false

-- The log of a node is not cut below what it has committed.
abbrev pub KeepsCommitted : ReplicationState → Event → Type 0
KeepsCommitted state (Event.applied n t c) = state.commit_sequence ≤ n
KeepsCommitted state _ = Unit

-- The fields that the invariant reads, when nothing but these matters.
abbrev IsSame : ReplicationState → ReplicationState → Type 0
IsSame s t =
    (t.role ≡ s.role)
    × (t.commit_sequence ≡ s.commit_sequence)
    × (t.local_last_applied_sequence ≡ s.local_last_applied_sequence)
    × (t.voted_for ≡ s.voted_for)

recompute-IsSound :
    (config : ReplicationConfig) (s : ReplicationState)
    → IsSound s
    → IsSound (recompute_commit_sequence config s)
unfolding recompute_commit_sequence
recompute-IsSound config s h = record {
  bounded = ground (arith, h.bounded);
  alone = λ a. ground (arith, h.alone);
  voted = ground (arith, h.voted);
}

set_local-IsSound :
    (config : ReplicationConfig) (n : ℕ) (t c : Option ℕ) (s : ReplicationState)
    → s.commit_sequence ≤ n
    → IsSound s
    → IsSound (set_local_last_applied_state config n t c s).0
unfolding set_local_last_applied_state recompute_commit_sequence
set_local-IsSound config n t c s k h = record {
  bounded = ground (arith, h.bounded);
  alone = λ a. ground (arith, h.alone);
  voted = ground (arith, h.voted);
}

observe_leader_commit-IsSound :
    (n : ℕ) (s : ReplicationState) → IsSound s → IsSound (observe_leader_commit n s).0
unfolding observe_leader_commit
observe_leader_commit-IsSound n s h = record {
  bounded = ground (arith, h.bounded, h.alone);
  alone = λ a. ground (arith, h.bounded, h.alone);
  voted = ground (arith, h.voted);
}

update_follower_phase-IsSound :
    (p : FollowerPhase) (e m : Option ℕ) (s : ReplicationState)
    → IsSound s
    → IsSound (update_follower_phase p e m s)
unfolding update_follower_phase
update_follower_phase-IsSound p e m s h = record {
  bounded = ground (arith, h.bounded, h.alone);
  alone = λ a. ground (arith, h.bounded, h.alone);
  voted = ground (arith, h.voted);
}

set_paused-IsSound : (b : Bool) (s : ReplicationState) → IsSound s → IsSound (set_paused b s)
unfolding set_paused
set_paused-IsSound b s h = record {
  bounded = ground (arith, h.bounded, h.alone);
  alone = λ a. ground (arith, h.bounded, h.alone);
  voted = ground (arith, h.voted);
}

register_follower_ack-IsSound :
    (config : ReplicationConfig) (now : ℕ) (f : String) (n t : ℕ) (l : String)
    (s : ReplicationState)
    → IsSound s
    → IsSound (register_follower_ack config now f n t l s).0
unfolding register_follower_ack recompute_commit_sequence
register_follower_ack-IsSound config now f n t l s h = record {
  bounded = ground (arith, h.bounded, h.alone);
  alone = λ a. ground (arith, h.bounded, h.alone);
  voted = ground (arith, h.voted);
}

record_append_result-IsSound :
    (config : ReplicationConfig) (now : ℕ) (f : String) (a : Bool) (n t : ℕ) (l : String)
    (s : ReplicationState)
    → IsSound s
    → IsSound (record_append_result config now f a n t l s).0
unfolding record_append_result recompute_commit_sequence
record_append_result-IsSound config now f a n t l s h = record {
  bounded = ground (arith, h.bounded, h.alone);
  alone = λ a. ground (arith, h.bounded, h.alone);
  voted = ground (arith, h.voted);
}

note_leader_activity-IsSound :
    (now : ℕ) (s : ReplicationState) → IsSound s → IsSound (note_leader_activity now s)
unfolding note_leader_activity
note_leader_activity-IsSound now s h = record {
  bounded = ground (arith, h.bounded, h.alone);
  alone = λ a. ground (arith, h.bounded, h.alone);
  voted = ground (arith, h.voted);
}

note_leader_frontier-IsSound :
    (n : ℕ) (s : ReplicationState) → IsSound s → IsSound (note_leader_frontier n s)
unfolding note_leader_frontier tracking_phase
note_leader_frontier-IsSound n s h = record {
  bounded = ground (arith, h.bounded, h.alone);
  alone = λ a. ground (arith, h.bounded, h.alone);
  voted = ground (arith, h.voted);
}

begin_election-IsSound :
    (config : ReplicationConfig) (m : Moment) (s : ReplicationState)
    → IsSound s
    → IsSound (begin_election config m s).1
unfolding begin_election
begin_election-IsSound config m s h = record {
  bounded = ground (arith, h.bounded, h.alone);
  alone = λ a. ground (arith, h.bounded, h.alone);
  voted = ground (arith, h.voted);
}

finalize_election-IsSound :
    (config : ReplicationConfig) (m : Moment) (t v n : ℕ) (s : ReplicationState)
    → IsSound s
    → IsSound (finalize_election config m t v n s).1
unfolding finalize_election
finalize_election-IsSound config m t v n s h = record {
  bounded = ground (arith, h.bounded, h.alone);
  alone = λ a. ground (arith, h.bounded, h.alone);
  voted = ground (arith, h.voted);
}

observe_remote_term-IsSound :
    (m : Moment) (t : ℕ) (s : ReplicationState) → IsSound s → IsSound (observe_remote_term m t s).1
unfolding observe_remote_term
observe_remote_term-IsSound m t s h = record {
  bounded = ground (arith, h.bounded, h.alone);
  alone = λ a. ground (arith, h.bounded, h.alone);
  voted = ground (arith, h.voted);
}

decide_vote-IsSound :
    (config : ReplicationConfig) (m : Moment) (r : VoteRequest) (fits : Bool) (s : ReplicationState)
    → IsSound s
    → IsSound (decide_vote config m r fits s).1
unfolding decide_vote cast_vote
decide_vote-IsSound config m r fits s h = record {
  bounded = ground (arith, h.bounded, h.alone);
  alone = λ a. ground (arith, h.bounded, h.alone);
  voted = ground (arith, h.voted);
}

adopt_term-IsSound :
    (m : Moment) (t : ℕ) (s : ReplicationState) → IsSound s → IsSound (adopt_term m t s)
unfolding adopt_term
adopt_term-IsSound m t s h = record {
  bounded = ground (arith, h.bounded, h.alone);
  alone = λ a. ground (arith, h.bounded, h.alone);
  voted = ground (arith, h.voted);
}

follow_leader-IsSound :
    (config : ReplicationConfig) (now : ℕ) (l : String) (a : Option String) (t c f : ℕ)
    (s : ReplicationState)
    → IsSound s
    → IsSound (follow_leader config now l a t c f s)
unfolding follow_leader tracking_phase
follow_leader-IsSound config now l a t c f s h = record {
  bounded = ground (arith, h.bounded, h.alone);
  alone = λ a. ground (arith, h.bounded, h.alone);
  voted = ground (arith, h.voted);
}

promote_follower-IsSound :
    (config : ReplicationConfig) (m : Moment) (b : Bool) (s : ReplicationState)
    → IsSound s
    → IsSound (promote_follower config m b s).1
unfolding promote_follower
promote_follower-IsSound config m b s h = record {
  bounded = ground (arith, h.bounded, h.alone);
  alone = λ a. ground (arith, h.bounded, h.alone);
  voted = ground (arith, h.voted);
}

handle_vote_request-IsSound :
    (config : ReplicationConfig) (m later : Moment) (r : VoteRequest) (s : ReplicationState)
    → IsSound s
    → IsSound (handle_vote_request config m later r s).1
handle_vote_request-IsSound config m later r s h =
    elim (handle_vote_request-VoteOutcome config m later r s) [
      | unchanged e ↦ rw (e) h
      | raised g e ↦ rw (e) (adopt_term-IsSound m r.term s h)
      | raised_decided g e ↦
          rw (e) (decide_vote-IsSound config later r _ _ (adopt_term-IsSound m r.term s h))
      | decided g e ↦ rw (e) (decide_vote-IsSound config later r _ s h)
    ]

handle_heartbeat-IsSound :
    (config : ReplicationConfig) (m : Moment) (r : HeartbeatRequest) (s : ReplicationState)
    → IsSound s
    → IsSound (handle_heartbeat config m r s).1
unfolding handle_heartbeat
handle_heartbeat-IsSound config m r s h =
    let followed =
      follow_leader-IsSound config m.now r.leader_node_id (some r.leader_addr) r.term
        r.commit_sequence r.leader_frontier_sequence s h in
    record {
      bounded = ground (arith, h.bounded, followed.bounded);
      alone = λ a. ground (arith, h.alone, followed.alone);
      voted = ground (arith, h.voted, followed.voted);
    }

observe_leader_status-IsSound :
    (config : ReplicationConfig) (m : Moment) (l : String) (a : Option String) (t c f : ℕ)
    (members : List ClusterMember) (s : ReplicationState)
    → IsSound s
    → IsSound (observe_leader_status config m l a t c f members s).1
unfolding observe_leader_status
observe_leader_status-IsSound config m l a t c f members s h =
    let followed = follow_leader-IsSound config m.now l a t c f s h in
    record {
      bounded = ground (arith, h.bounded, followed.bounded);
      alone = λ b. ground (arith, h.alone, followed.alone);
      voted = ground (arith, h.voted, followed.voted);
    }

-- Changes of the members and of the election time.
same-IsSound : {s t : ReplicationState} → IsSame s t → IsSound s → IsSound t
same-IsSound (r, c, l, v) h = record {
  bounded = ground (arith, h.bounded);
  alone = λ a. ground (arith, h.alone);
  voted = ground (arith, h.voted);
}

-- Every operation of the runtime keeps what `assert_runtime_invariants` asserts, if the log of the
-- node is not set back below what it has committed.
pub handle-IsSound :
    (config : ReplicationConfig) (e : Event) (s : ReplicationState)
    → KeepsCommitted s e
    → IsSound s
    → IsSound (handle config e s)
unfolding handle defer_election add_member remove_member set_advertise_addr
handle-IsSound config (Event.applied n t c) s k h = set_local-IsSound config n t c s k h
handle-IsSound config (Event.leader_commit n) s k h = observe_leader_commit-IsSound n s h
handle-IsSound config (Event.phase p e m) s k h = update_follower_phase-IsSound p e m s h
handle-IsSound config (Event.pause b) s k h = set_paused-IsSound b s h
handle-IsSound config (Event.ack now f n t l) s k h =
    register_follower_ack-IsSound config now f n t l s h
handle-IsSound config (Event.append_result now f a n t l) s k h =
    record_append_result-IsSound config now f a n t l s h
handle-IsSound config (Event.activity now) s k h = note_leader_activity-IsSound now s h
handle-IsSound config (Event.frontier n) s k h = note_leader_frontier-IsSound n s h
handle-IsSound config (Event.defer m) s k h = same-IsSound (refl, refl, refl, refl) h
handle-IsSound config (Event.begin m) s k h = begin_election-IsSound config m s h
handle-IsSound config (Event.finalize m t v n) s k h = finalize_election-IsSound config m t v n s h
handle-IsSound config (Event.remote_term m t) s k h = observe_remote_term-IsSound m t s h
handle-IsSound config (Event.vote m later r) s k h =
    handle_vote_request-IsSound config m later r s h
handle-IsSound config (Event.heartbeat m r) s k h = handle_heartbeat-IsSound config m r s h
handle-IsSound config (Event.leader_status m l a t c f ms) s k h =
    observe_leader_status-IsSound config m l a t c f ms s h
handle-IsSound config (Event.promote m b) s k h = promote_follower-IsSound config m b s h
handle-IsSound config (Event.add m c) s k h = same-IsSound (ground arith) h
handle-IsSound config (Event.drop_member m n) s k h = same-IsSound (ground arith) h
handle-IsSound config (Event.advertise m a) s k h = same-IsSound (ground arith) h

-- The condition on each event of a run, in the state where it comes.
abbrev pub AllKeepCommitted : ReplicationConfig → List Event → ReplicationState → Type 0
AllKeepCommitted config [] s = Unit
AllKeepCommitted config (e ∷ events) s =
    KeepsCommitted s e × AllKeepCommitted config events (handle config e s)

-- A run of the node, a sequence of its operations, keeps what `assert_runtime_invariants` asserts, if
-- no operation sets the log back below what is committed when it comes.
pub run_events-IsSound :
    (config : ReplicationConfig) (events : List Event) (s : ReplicationState)
    → AllKeepCommitted config events s
    → IsSound s
    → IsSound (run_events config events s)
unfolding run_events
run_events-IsSound config [] s k h = h
run_events-IsSound config (e ∷ events) s (k, ks) h =
    run_events-IsSound config events (handle config e s) ks (handle-IsSound config e s k h)
