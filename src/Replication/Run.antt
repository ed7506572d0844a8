-- ===== src/Replication/Run.antt =====
-- The public operations of `ReplicationRuntime` (crates/server/src/replication/mod.rs) as events: each
-- runs under the lock of the state, so that a run of the node is a sequence of them.
pub mod Sound
pub mod Ballot
pub mod Monotone
use vaylix.Prelude.{ℕ, String, Bool, Option, List, [], ◌∷◌}
use vaylix.Replication.State.{
  FollowerPhase, ClusterMember, ReplicationConfig, ReplicationState, Moment,
}
use vaylix.Replication.Progress.{
  set_local_last_applied_state, observe_leader_commit, update_follower_phase, set_paused,
  register_follower_ack, record_append_result, note_leader_activity, note_leader_frontier,
}
use vaylix.Replication.Vote.{VoteRequest, handle_vote_request}
use vaylix.Replication.Leadership.{
  HeartbeatRequest, defer_election, begin_election, finalize_election, observe_remote_term,
  handle_heartbeat, observe_leader_status, promote_follower, add_member, remove_member,
  set_advertise_addr,
}

pub data Event : Type 0 where
  applied : ℕ → Option ℕ → Option ℕ → Event
  leader_commit : ℕ → Event
  phase : FollowerPhase → Option ℕ → Option ℕ → Event
  pause : Bool → Event
  ack : ℕ → String → ℕ → ℕ → String → Event
  append_result : ℕ → String → Bool → ℕ → ℕ → String → Event
  activity : ℕ → Event
  frontier : ℕ → Event
  defer : Moment → Event
  begin : Moment → Event
  finalize : Moment → ℕ → ℕ → ℕ → Event
  remote_term : Moment → ℕ → Event
  vote : Moment → Moment → VoteRequest → Event
  heartbeat : Moment → HeartbeatRequest → Event
  leader_status : Moment → String → Option String → ℕ → ℕ → ℕ → List ClusterMember → Event
  promote : Moment → Bool → Event
  add : Moment → ClusterMember → Event
  drop_member : Moment → String → Event
  advertise : Moment → String → Event

-- The state after one operation, whatever it answers.
unfoldable pub handle : ReplicationConfig → Event → ReplicationState → ReplicationState
handle config (applied n t c) state = (set_local_last_applied_state config n t c state).0
handle config (leader_commit n) state = (observe_leader_commit n state).0
handle config (phase p e m) state = update_follower_phase p e m state
handle config (pause b) state = set_paused b state
handle config (ack now f n t l) state = (register_follower_ack config now f n t l state).0
handle config (append_result now f a n t l) state =
    (record_append_result config now f a n t l state).0
handle config (activity now) state = note_leader_activity now state
handle config (frontier n) state = note_leader_frontier n state
handle config (defer m) state = defer_election m state
handle config (begin m) state = (begin_election config m state).1
handle config (finalize m t v n) state = (finalize_election config m t v n state).1
handle config (remote_term m t) state = (observe_remote_term m t state).1
handle config (vote m m' r) state = (handle_vote_request config m m' r state).1
handle config (heartbeat m r) state = (handle_heartbeat config m r state).1
handle config (leader_status m l a t c f ms) state =
    (observe_leader_status config m l a t c f ms state).1
handle config (promote m b) state = (promote_follower config m b state).1
handle config (add m c) state = (add_member m c state).1
handle config (drop_member m n) state = (remove_member m n state).1
handle config (advertise m a) state = (set_advertise_addr config m a state).1

unfoldable pub run_events : ReplicationConfig → List Event → ReplicationState → ReplicationState
unfolding handle
run_events config [] state = state
run_events config (e ∷ events) state = run_events config events (handle config e state)
