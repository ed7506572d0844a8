-- ===== src/Replication/State.antt =====
-- The data of crates/server/src/replication/mod.rs, and what all its handlers share. Instants and
-- durations are milliseconds; one reading of the clock stands for those of one handler. The members
-- and followers are tables, whose order no handler reads.
use vaylix.Prelude.{
  ℕ, ◌-◌, ◌*◌, String, Bool, true, false, ◌&&◌, not, Option, none, some, List, [], ◌∷◌, str_eq, ltb,
  leb, max, Result, ok, err, if◌then◌else◌,
}
use vaylix.Table.{Table, lookup, insert}

pub data ReplicationRole : Type 0 where
  standalone leader follower candidate : ReplicationRole

pub data WriteAckMode : Type 0 where
  local replica all : WriteAckMode

pub data FollowerPhase : Type 0 where
  bootstrap snapshot_sync catching_up streaming stale paused : FollowerPhase

abbrev pub is_leader : ReplicationRole → Bool
is_leader ReplicationRole.leader = true
is_leader _ = false

abbrev pub is_standalone : ReplicationRole → Bool
is_standalone ReplicationRole.standalone = true
is_standalone _ = false

abbrev pub is_follower : ReplicationRole → Bool
is_follower ReplicationRole.follower = true
is_follower _ = false

abbrev pub is_candidate : ReplicationRole → Bool
is_candidate ReplicationRole.candidate = true
is_candidate _ = false

pub record ClusterMember : Type 0 where
  pub node_id : String
  pub advertise_addr : String
  pub voter : Bool

-- The fields that the handlers read.
pub record ReplicationConfig : Type 0 where
  pub node_id : String
  pub advertise_addr : Option String
  pub write_ack_mode : WriteAckMode
  pub fetch_batch_size : ℕ
  pub stale_after : ℕ
  pub election_timeout_min : ℕ
  pub election_timeout_max : ℕ

pub record FollowerProgress : Type 0 where
  pub match_index : ℕ
  pub next_sequence : ℕ
  pub last_ack_at : ℕ
  pub last_ack_term : ℕ

pub record ReplicationState : Type 0 where
  pub role : ReplicationRole
  pub is_paused : Bool
  pub leader_node_id : Option String
  pub leader_advertise_addr : Option String
  pub local_last_applied_sequence : ℕ
  pub local_last_applied_term : Option ℕ
  pub local_last_applied_checksum : Option ℕ
  pub commit_sequence : ℕ
  pub leader_target_sequence : ℕ
  pub follower_phase : Option FollowerPhase
  pub follower_lag_entries : Option ℕ
  pub follower_lag_ms : Option ℕ
  pub health : String
  pub reason : Option String
  pub followers : Table FollowerProgress
  pub current_term : ℕ
  pub voted_for : Option String
  pub bootstrap_preferred : Bool
  pub bootstrap_release_at : Option ℕ
  pub last_heartbeat_at : ℕ
  pub next_election_at : ℕ
  pub election_suppressed_until : Option ℕ
  pub members : Table ClusterMember

-- What a handler meets: the clock, the timeout that `random_election_timeout` draws, and the error
-- of `persist_state`, if the file cannot be written.
pub data ServerError : Type 0 where
  io : ℕ → ServerError
  promotion_denied : String → ServerError

pub record Moment : Type 0 where
  pub now : ℕ
  pub election_timeout : ℕ
  pub persist_error : Option ServerError

-- `persist_state(…)?; Ok(answer)`: the state in memory has changed in any case.
abbrev pub persisted {ℓ} :
    {A : Type ℓ} → Moment → A → ReplicationState → Result ServerError A × ReplicationState
persisted moment answer state = elim moment.persist_error [
  | none ↦ (ok answer, state)
  | some e ↦ (err e, state)
]

unfoldable pub is_voting_member : ReplicationState → String → Bool
is_voting_member state node_id = elim (lookup node_id state.members) [
  | none ↦ false
  | some member ↦ member.voter
]

-- `value.as_deref() == Some(name)`
abbrev pub names : Option String → String → Bool
names none name = false
names (some other) name = str_eq other name

abbrev pub or_zero : Option ℕ → ℕ
or_zero none = 0
or_zero (some n) = n

abbrev is_some {ℓ} : {A : Type ℓ} → Option A → Bool
is_some none = false
is_some (some _) = true

-- crates/server/src/replication/timing.rs; `saturating_mul` is on a `Duration`, far from its bound.
unfoldable pub leader_lease_duration : ReplicationConfig → ℕ
leader_lease_duration config = max config.stale_after (config.election_timeout_max * 4)

-- `duration_since` is 0 for an instant that is later.
unfoldable pub recently_heard_from_known_leader : ReplicationConfig → ℕ → ReplicationState → Bool
unfolding leader_lease_duration
recently_heard_from_known_leader config now state =
    is_some state.leader_node_id
    && ltb (now - state.last_heartbeat_at) (leader_lease_duration config)

-- `self.config.advertise_addr.clone().or_else(…)`
unfoldable pub advertised : ReplicationConfig → ReplicationState → Option String
advertised config state = elim config.advertise_addr [
  | some addr ↦ some addr
  | none ↦ elim (lookup config.node_id state.members) [
    | none ↦ none
    | some m ↦ some m.advertise_addr
  ]
]

-- `members.into_iter().map(|member| (member.node_id.clone(), member)).collect()`
unfoldable pub member_table : List ClusterMember → Table ClusterMember → Table ClusterMember
member_table [] table = table
member_table (m ∷ members) table = member_table members (insert m.node_id m table)

-- The phase of a follower that knows how far its leader is.
unfoldable pub tracking_phase : ReplicationState → ReplicationState
tracking_phase state =
    let behind = not (
      leb state.local_last_applied_sequence state.leader_target_sequence
      && leb state.leader_target_sequence state.local_last_applied_sequence) in
    let phase = if behind then FollowerPhase.catching_up else FollowerPhase.streaming in
    if state.is_paused then state else record state { follower_phase = some phase }

-- `if state.role != Standalone { state.role = Follower; }`
abbrev pub stepped_down : ReplicationRole → ReplicationRole
stepped_down ReplicationRole.standalone = ReplicationRole.standalone
stepped_down _ = ReplicationRole.follower
