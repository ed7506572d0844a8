-- ===== src/Replication/Run/Monotone.antt =====
-- What never goes back in a node of crates/server/src/replication/mod.rs: its term, and its commit
-- sequence unless it stands alone.
use vaylix.Prelude.{◌≤◌, ◌≡◌, Bool, false, ◌&&◌, ltb, arith, saturating_add, u64_max}
use vaylix.Replication.State.{
  is_standalone, ReplicationConfig, ReplicationState, Moment, tracking_phase,
}
use vaylix.Replication.Quorum.{recompute_commit_sequence}
use vaylix.Replication.Progress.{
  set_local_last_applied_state, observe_leader_commit, update_follower_phase, set_paused,
  register_follower_ack, record_append_result, note_leader_activity, note_leader_frontier,
}
use vaylix.Replication.Vote.{VoteRequest, up_to_date, adopt_term, cast_vote, decide_vote}
use vaylix.Replication.Vote.Outcome.{
  VoteOutcome, unchanged, raised, raised_decided, decided, handle_vote_request-VoteOutcome,
}
use vaylix.Replication.Leadership.{
  defer_election, begin_election, finalize_election, observe_remote_term, follow_leader,
  handle_heartbeat, observe_leader_status, promote_follower, add_member, remove_member,
  set_advertise_addr,
}
use vaylix.Replication.Run.{Event, handle}

-- The term and the commit sequence of the second state are not below those of the first.
abbrev pub IsLater : ReplicationState → ReplicationState → Type 0
IsLater s t = (s.current_term ≤ t.current_term) × (s.commit_sequence ≤ t.commit_sequence)

-- A node that stands alone commits what it applies, so its log is not to be set back.
abbrev pub KeepsAlone : ReplicationState → Event → Type 0
KeepsAlone s (Event.applied n t c) = (is_standalone s.role && ltb n s.commit_sequence) ≡ false
KeepsAlone s _ = Unit

decide_vote-same :
    (config : ReplicationConfig) (m : Moment) (r : VoteRequest) (fits : Bool) (s : ReplicationState)
    → ((decide_vote config m r fits s).1.current_term ≡ s.current_term)
      × ((decide_vote config m r fits s).1.commit_sequence ≡ s.commit_sequence)
unfolding decide_vote cast_vote
decide_vote-same config m r fits s = ground arith

vote-IsLater :
    (config : ReplicationConfig) (m later : Moment) (r : VoteRequest) (s t : ReplicationState)
    → VoteOutcome config m later r s t
    → IsLater s t
unfolding adopt_term
vote-IsLater config m later r s t (unchanged e) = rw (e) (omega arith, omega arith)
vote-IsLater config m later r s t (raised g e) = rw (e) (ground arith)
vote-IsLater config m later r s t (raised_decided g e) =
    let (a, b) = decide_vote-same config later r (up_to_date r s) (adopt_term m r.term s) in
    rw (e) (ground (arith, a, b))
vote-IsLater config m later r s t (decided g e) =
    let (a, b) = decide_vote-same config later r (up_to_date r s) s in rw (e) (ground (arith, a, b))

-- No operation lowers the term of a node, a `u64`, or its commit sequence, unless a node that stands
-- alone sets its log back.
pub handle-IsLater :
    (config : ReplicationConfig) (e : Event) (s : ReplicationState)
    → s.current_term ≤ u64_max
    → KeepsAlone s e
    → IsLater s (handle config e s)
unfolding handle set_local_last_applied_state observe_leader_commit update_follower_phase set_paused
    register_follower_ack record_append_result note_leader_activity note_leader_frontier
    tracking_phase defer_election begin_election finalize_election observe_remote_term
    handle_heartbeat observe_leader_status follow_leader promote_follower add_member remove_member
    set_advertise_addr recompute_commit_sequence saturating_add
handle-IsLater config (Event.vote m later r) s b k =
    vote-IsLater config m later r s _ (handle_vote_request-VoteOutcome config m later r s)
handle-IsLater config (Event.applied n t c) s b k = ground arith
handle-IsLater config (Event.leader_commit n) s b k = ground arith
handle-IsLater config (Event.phase p e m) s b k = ground arith
handle-IsLater config (Event.pause p) s b k = ground arith
handle-IsLater config (Event.ack now f n t l) s b k = ground arith
handle-IsLater config (Event.append_result now f a n t l) s b k = ground arith
handle-IsLater config (Event.activity now) s b k = ground arith
handle-IsLater config (Event.frontier n) s b k = ground arith
handle-IsLater config (Event.defer m) s b k = ground arith
handle-IsLater config (Event.begin m) s b k = ground arith
handle-IsLater config (Event.finalize m t v n) s b k = ground arith
handle-IsLater config (Event.remote_term m t) s b k = ground arith
handle-IsLater config (Event.heartbeat m r) s b k = ground arith
handle-IsLater config (Event.leader_status m l a t c f ms) s b k = ground arith
handle-IsLater config (Event.promote m p) s b k = ground arith
handle-IsLater config (Event.add m c) s b k = ground arith
handle-IsLater config (Event.drop_member m n) s b k = ground arith
handle-IsLater config (Event.advertise m a) s b k = ground arith
