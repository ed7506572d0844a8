-- ===== src/Replication/Progress.antt =====
-- How the log position, the commit and the followers' progress move: `set_local_last_applied_state`,
-- `observe_leader_commit`, `update_follower_phase`, `register_follower_ack`, `record_append_result`,
-- `note_leader_frontier` and their readers in crates/server/src/replication/mod.rs.
use vaylix.Prelude.{
  ℕ, ◌+◌, ◌-◌, min, max, String, Bool, true, false, ◌&&◌, ◌||◌, not, Option, none, some, List, [],
  ◌∷◌, ltb, leb, ◌==◌, str_eq, saturating_add, if◌then◌else◌,
}
use vaylix.Table.{Table, lookup, insert}
use vaylix.Replication.State.{
  is_leader, is_standalone, is_follower, is_candidate, WriteAckMode, FollowerPhase, ClusterMember,
  ReplicationConfig, FollowerProgress, ReplicationState, tracking_phase,
}
use vaylix.Replication.Quorum.{quorum_size_from_members, recompute_commit_sequence, voters}

-- `notify_commit_if_advanced`: whether the waiters are notified.
abbrev pub commit_advanced : ℕ → ReplicationState → Bool
commit_advanced previous state = ltb previous state.commit_sequence

unfoldable pub set_local_last_applied_state :
    ReplicationConfig → ℕ → Option ℕ → Option ℕ → ReplicationState → ReplicationState × Bool
set_local_last_applied_state config sequence term checksum state =
    let moved = record state {
      local_last_applied_sequence = sequence;
      local_last_applied_term = term;
      local_last_applied_checksum = checksum;
    } in
    let state' =
      if is_standalone state.role
      then record moved { commit_sequence = sequence }
      else if is_leader state.role
      then recompute_commit_sequence config moved
      else moved in
    (state', commit_advanced state.commit_sequence state')

unfoldable pub observe_leader_commit : ℕ → ReplicationState → ReplicationState × Bool
observe_leader_commit leader_commit_sequence state =
    let bounded = min leader_commit_sequence state.local_last_applied_sequence in
    let state' = record state { commit_sequence = max state.commit_sequence bounded } in
    if is_leader state.role || is_standalone state.role
    then (state, false)
    else (state', commit_advanced state.commit_sequence state')

unfoldable pub update_follower_phase :
    FollowerPhase → Option ℕ → Option ℕ → ReplicationState → ReplicationState
update_follower_phase phase lag_entries lag_ms state =
    let moved = record state {
      follower_phase = some phase;
      follower_lag_entries = lag_entries;
      follower_lag_ms = lag_ms;
    } in
    elim phase [
      | FollowerPhase.stale ↦ record moved {
        health = "degraded";
        reason = some "replication_stale";
      }
      | FollowerPhase.paused ↦ record moved {
        health = "degraded";
        reason = some "replication_paused";
      }
      | _ ↦
          if is_candidate state.role
          then moved
          else record moved { health = "ready"; reason = none }
    ]

unfoldable pub set_paused : Bool → ReplicationState → ReplicationState
set_paused paused state =
    let phase = if paused then FollowerPhase.paused else FollowerPhase.bootstrap in
    let moved = record state { is_paused = paused } in
    if is_follower state.role then record moved { follower_phase = some phase } else moved

-- A report that is not for this leader in this term is dropped.
abbrev pub misdirected : ReplicationConfig → ℕ → String → ReplicationState → Bool
misdirected config term leader_node_id state =
    not (is_leader state.role)
    || not (state.current_term == term)
    || not (str_eq leader_node_id config.node_id)

unfoldable pub register_follower_ack :
    ReplicationConfig → ℕ → String → ℕ → ℕ → String → ReplicationState → ReplicationState × Bool
register_follower_ack config now follower_node_id applied_sequence term leader_node_id state =
    let progress : FollowerProgress = record {
      match_index = applied_sequence;
      next_sequence = saturating_add applied_sequence 1;
      last_ack_at = now;
      last_ack_term = term;
    } in
    let moved = record state { followers = insert follower_node_id progress state.followers } in
    let state' = recompute_commit_sequence config moved in
    if misdirected config term leader_node_id state
    then (state, false)
    else (state', commit_advanced state.commit_sequence state')

-- The entry of a follower that has none yet.
abbrev progress_or_new : ℕ → ℕ → Option FollowerProgress → FollowerProgress
progress_or_new now term none = record {
  match_index = 0;
  next_sequence = 1;
  last_ack_at = now;
  last_ack_term = term;
}
progress_or_new now term (some p) = p

-- What the answer of a follower to an append makes of its progress.
unfoldable pub progressed : ℕ → ℕ → Bool → ℕ → Option FollowerProgress → FollowerProgress
progressed now term accepted match_sequence old =
    let progress = progress_or_new now term old in
    let matched = max progress.match_index match_sequence in
    let fallback_next = saturating_add match_sequence 1 in
    if accepted
    then record {
      match_index = matched;
      next_sequence = saturating_add matched 1;
      last_ack_at = now;
      last_ack_term = term;
    }
    else record {
      match_index = progress.match_index;
      next_sequence = min (max (progress.next_sequence - 1) 1) (max fallback_next 1);
      last_ack_at = now;
      last_ack_term = term;
    }

unfoldable pub record_append_result :
    ReplicationConfig
    → ℕ
    → String
    → Bool
    → ℕ
    → ℕ
    → String
    → ReplicationState
    → ReplicationState × Bool
unfolding progressed
record_append_result config now follower_node_id accepted match_sequence term leader_node_id state =
    let progress =
      progressed now term accepted match_sequence (lookup follower_node_id state.followers) in
    let moved = record state { followers = insert follower_node_id progress state.followers } in
    let state' = recompute_commit_sequence config moved in
    if misdirected config term leader_node_id state
    then (state, false)
    else (state', commit_advanced state.commit_sequence state')

unfoldable pub note_leader_activity : ℕ → ReplicationState → ReplicationState
note_leader_activity now state =
    if is_leader state.role then record state { last_heartbeat_at = now } else state

unfoldable pub note_leader_frontier : ℕ → ReplicationState → ReplicationState
unfolding tracking_phase
note_leader_frontier sequence state =
    let moved = record state {
      leader_target_sequence = max state.leader_target_sequence sequence;
    } in
    if is_follower state.role then tracking_phase moved else state

unfoldable pub write_window_available : ReplicationConfig → ReplicationState → Bool
write_window_available config state = elim config.write_ack_mode [
  | WriteAckMode.local ↦ true
  | _ ↦ ltb (state.local_last_applied_sequence - state.commit_sequence) config.fetch_batch_size
]

-- A follower that has answered in this term and within the freshness window.
unfoldable pub is_fresh : ReplicationConfig → ℕ → ReplicationState → ClusterMember → Bool
is_fresh config now state member = elim (lookup member.node_id state.followers) [
  | none ↦ false
  | some p ↦ p.last_ack_term == state.current_term && ltb (now - p.last_ack_at) config.stale_after
]

unfoldable pub count_fresh : ReplicationConfig → ℕ → ReplicationState → List ClusterMember → ℕ
unfolding is_fresh
count_fresh config now state [] = 0
count_fresh config now state (m ∷ members) =
    let rest = count_fresh config now state members in
    if not (str_eq m.node_id config.node_id) && is_fresh config now state m then rest + 1 else rest

unfoldable pub all_fresh : ReplicationConfig → ℕ → ReplicationState → List ClusterMember → Bool
unfolding is_fresh
all_fresh config now state [] = true
all_fresh config now state (m ∷ members) =
    (str_eq m.node_id config.node_id || is_fresh config now state m)
    && all_fresh config now state members

unfoldable pub write_quorum_fresh : ReplicationConfig → ℕ → ReplicationState → Bool
unfolding count_fresh all_fresh
write_quorum_fresh config now state = elim config.write_ack_mode [
  | WriteAckMode.local ↦ true
  | WriteAckMode.replica ↦
      leb (quorum_size_from_members state.members - 1)
        (count_fresh config now state (voters state.members))
  | WriteAckMode.all ↦ all_fresh config now state (voters state.members)
]

-- The least match of the followers, plus one.
unfoldable pub retention_floor_sequence : Table FollowerProgress → Option ℕ
retention_floor_sequence [] = none
retention_floor_sequence ((k, p) ∷ followers) =
    let here = saturating_add p.match_index 1 in
    elim (retention_floor_sequence followers) [ none ↦ some here | some n ↦ some (min here n) ]

unfoldable pub follower_next_sequence : String → ReplicationState → ℕ
follower_next_sequence follower_node_id state = elim (lookup follower_node_id state.followers) [
  | none ↦ 1
  | some p ↦ p.next_sequence
]
