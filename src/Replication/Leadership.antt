-- ===== src/Replication/Leadership.antt =====
-- Elections, terms and leaders: `election_due`, `begin_election`, `finalize_election`,
-- `observe_remote_term`, `handle_heartbeat`, `observe_leader_status`, `promote_follower` and the
-- members in crates/server/src/replication/mod.rs.
pub mod Rivals
use vaylix.Prelude.{
  ℕ, ◌+◌, min, max, String, Bool, true, false, ◌&&◌, ◌||◌, not, Option, none, some, List, [], ◌∷◌,
  Result, ok, err, ltb, leb, ◌==◌, saturating_add, if◌then◌else◌,
}
use vaylix.Table.{Table, lookup, insert, remove}
use vaylix.Replication.State.{
  ReplicationRole, is_follower, is_candidate, FollowerPhase, ClusterMember, ReplicationConfig,
  ReplicationState, ServerError, Moment, persisted, is_voting_member, leader_lease_duration,
  recently_heard_from_known_leader, advertised, member_table, tracking_phase, stepped_down,
}
use vaylix.Replication.Quorum.{quorum_size}

abbrev until_later : Option ℕ → ℕ → Bool
until_later none now = false
until_later (some t) now = ltb now t

abbrev bootstrapping : Option FollowerPhase → Bool
bootstrapping (some FollowerPhase.bootstrap) = true
bootstrapping _ = false

abbrev phase_allows_election : Option FollowerPhase → Bool
phase_allows_election none = true
phase_allows_election (some FollowerPhase.bootstrap) = true
phase_allows_election (some FollowerPhase.streaming) = true
phase_allows_election (some FollowerPhase.stale) = true
phase_allows_election _ = false

abbrev role_allows_election : ReplicationState → Bool
role_allows_election state =
    is_candidate state.role
    || (is_follower state.role && phase_allows_election state.follower_phase)

unfoldable pub election_due : ReplicationConfig → ℕ → ReplicationState → Bool
election_due config now state =
    if bootstrapping state.follower_phase
      && not state.bootstrap_preferred
      && until_later state.bootstrap_release_at now
    then false
    else if until_later state.election_suppressed_until now
    then false
    else if recently_heard_from_known_leader config now state
    then false
    else (role_allows_election state
        && leb state.leader_target_sequence state.local_last_applied_sequence
        && leb state.next_election_at now)

unfoldable pub defer_election : Moment → ReplicationState → ReplicationState
defer_election moment state = record state {
  next_election_at = moment.now + moment.election_timeout;
}

-- What a candidate asks for votes with: the term, and the position and term of its log.
pub record Candidacy : Type 0 where
  pub term : ℕ
  pub members : Table ClusterMember
  pub last_log_index : ℕ
  pub last_log_term : Option ℕ

unfoldable pub begin_election :
    ReplicationConfig → Moment → ReplicationState → Result ServerError Candidacy × ReplicationState
begin_election config moment state =
    let term = saturating_add state.current_term 1 in
    let state' = record state {
      role = ReplicationRole.candidate;
      current_term = term;
      voted_for = some config.node_id;
      bootstrap_preferred = false;
      bootstrap_release_at = none;
      followers = [];
      leader_target_sequence = 0;
      leader_node_id = none;
      leader_advertise_addr = none;
      health = "degraded";
      reason = some "election_in_progress";
      next_election_at = moment.now + moment.election_timeout;
    } in
    persisted moment
      (record {
        term = term;
        members = state.members;
        last_log_index = state.local_last_applied_sequence;
        last_log_term = state.local_last_applied_term;
      })
      state'

unfoldable pub finalize_election :
    ReplicationConfig
    → Moment
    → ℕ
    → ℕ
    → ℕ
    → ReplicationState
    → Result ServerError Bool × ReplicationState
finalize_election config moment term votes_granted members state =
    let leading = record state {
      role = ReplicationRole.leader;
      followers = [];
      leader_target_sequence = 0;
      bootstrap_preferred = false;
      bootstrap_release_at = none;
      leader_node_id = some config.node_id;
      leader_advertise_addr = advertised config state;
      health = "ready";
      reason = none;
      next_election_at = moment.now + moment.election_timeout;
    } in
    if not (state.current_term == term) || not (is_candidate state.role)
    then (ok false, state)
    else if ltb votes_granted (quorum_size members)
    then (ok false, state)
    else persisted moment true leading

unfoldable pub observe_remote_term :
    Moment → ℕ → ReplicationState → Result ServerError (Unit {0}) × ReplicationState
observe_remote_term moment term state =
    let state' = record state {
      current_term = term;
      voted_for = none;
      bootstrap_preferred = false;
      bootstrap_release_at = none;
      role = stepped_down state.role;
      followers = [];
      leader_target_sequence = 0;
      leader_node_id = none;
      leader_advertise_addr = none;
      health = "degraded";
      reason = some "awaiting_leader";
      next_election_at = moment.now + moment.election_timeout;
    } in
    if ltb state.current_term term then persisted moment tt state' else (ok tt, state)

-- What `handle_heartbeat` and `observe_leader_status` share: the leader of a term that is not older
-- than the local one is followed, and its commit is taken as far as the local log goes.
unfoldable pub follow_leader :
    ReplicationConfig → ℕ → String → Option String → ℕ → ℕ → ℕ → ReplicationState → ReplicationState
unfolding tracking_phase
follow_leader config now leader_node_id leader_addr term commit frontier state =
    let bounded_commit = min commit state.local_last_applied_sequence in
    let lease = now + leader_lease_duration config in
    let moved = record state {
      current_term = term;
      followers = if ltb state.current_term term then [] else state.followers;
      role = stepped_down state.role;
      voted_for = some leader_node_id;
      bootstrap_preferred = false;
      bootstrap_release_at = none;
      leader_node_id = some leader_node_id;
      leader_advertise_addr = leader_addr;
      commit_sequence = max state.commit_sequence bounded_commit;
      leader_target_sequence = max state.leader_target_sequence (max frontier commit);
      last_heartbeat_at = now;
      next_election_at = lease;
      election_suppressed_until = some lease;
      health = "ready";
      reason = none;
    } in
    tracking_phase moved

pub record HeartbeatRequest : Type 0 where
  pub term : ℕ
  pub leader_node_id : String
  pub leader_addr : String
  pub commit_sequence : ℕ
  pub leader_frontier_sequence : ℕ
  pub members : List ClusterMember

pub record HeartbeatResponse : Type 0 where
  pub term : ℕ
  pub accepted : Bool

unfoldable pub handle_heartbeat :
    ReplicationConfig
    → Moment
    → HeartbeatRequest
    → ReplicationState
    → Result ServerError HeartbeatResponse × ReplicationState
unfolding follow_leader member_table
handle_heartbeat config moment request state =
    let refused : HeartbeatResponse = record { term = state.current_term; accepted = false } in
    let moved =
      follow_leader config moment.now request.leader_node_id (some request.leader_addr) request.term
        request.commit_sequence request.leader_frontier_sequence state in
    let state' = record moved { members = member_table request.members [] } in
    if not (is_voting_member state request.leader_node_id)
    then (ok refused, state)
    else if ltb request.term state.current_term
    then (ok refused, state)
    else persisted moment (record { term = request.term; accepted = true }) state'

abbrev members_or : List ClusterMember → Table ClusterMember → Table ClusterMember
members_or [] old = old
members_or (m ∷ members) old = member_table (m ∷ members) []

unfoldable pub observe_leader_status :
    ReplicationConfig
    → Moment
    → String
    → Option String
    → ℕ
    → ℕ
    → ℕ
    → List ClusterMember
    → ReplicationState
    → Result ServerError (Unit {0}) × ReplicationState
unfolding follow_leader
observe_leader_status config moment leader_node_id leader_addr term commit frontier members state =
    let moved =
      follow_leader config moment.now leader_node_id leader_addr term commit frontier state in
    let state' = record moved { members = members_or members state.members } in
    if ltb term state.current_term then (ok tt, state) else persisted moment tt state'

unfoldable pub promote_follower :
    ReplicationConfig
    → Moment
    → Bool
    → ReplicationState
    → Result ServerError (Unit {0}) × ReplicationState
promote_follower config moment maintenance_enabled state =
    let promoted = record state {
      current_term = saturating_add state.current_term 1;
      voted_for = some config.node_id;
      role = ReplicationRole.leader;
      follower_phase = none;
      leader_node_id = some config.node_id;
      leader_advertise_addr = advertised config state;
      health = "ready";
      reason = none;
    } in
    if not maintenance_enabled
    then (err (ServerError.promotion_denied "promotion requires maintenance mode"), state)
    else if not (is_follower state.role)
    then (err (ServerError.promotion_denied "only followers may be promoted"), state)
    else persisted moment tt promoted

unfoldable pub add_member :
    Moment → ClusterMember → ReplicationState → Result ServerError (Unit {0}) × ReplicationState
add_member moment member state =
    persisted moment tt (record state { members = insert member.node_id member state.members })

unfoldable pub remove_member :
    Moment → String → ReplicationState → Result ServerError (Unit {0}) × ReplicationState
remove_member moment node_id state = persisted moment tt (record state {
  members = remove node_id state.members;
  followers = remove node_id state.followers;
})

abbrev readdressed : ReplicationConfig → String → Option ClusterMember → ClusterMember
readdressed config addr none = record {
  node_id = config.node_id;
  advertise_addr = addr;
  voter = true;
}
readdressed config addr (some m) = record m { advertise_addr = addr }

unfoldable pub set_advertise_addr :
    ReplicationConfig
    → Moment
    → String
    → ReplicationState
    → Result ServerError (Unit {0}) × ReplicationState
set_advertise_addr config moment addr state =
    let member = readdressed config addr (lookup config.node_id state.members) in
    persisted moment tt (record state { members = insert config.node_id member state.members })
