-- ===== src/Examples/Cluster.antt =====
-- Instances of the theorems on consensus: a cluster of three voters.
use vaylix.Prelude.{
  ok, saturating_add, ℕ, ◌+◌, ◌≤◌, ◌≡◌, refl, String, true, false, Option, none, some, [], ◌∷◌,
  arith,
}
use vaylix.Table.{Table, lookup}
use vaylix.Replication.State.{
  ReplicationRole, is_leader, WriteAckMode, ClusterMember, ReplicationConfig, FollowerProgress,
  ReplicationState, Moment, is_voting_member,
}
use vaylix.Replication.Quorum.{
  quorum_size, quorum_size_from_members, voter_match_sequences, recompute_commit_sequence,
}
use vaylix.Replication.Quorum.Commit.{reached, recompute_commit_sequence-quorum}
use vaylix.Replication.Vote.{VoteRequest, handle_vote_request, up_to_date}
use vaylix.Replication.Leadership.{Candidacy, begin_election, finalize_election, promote_follower}
use vaylix.Replication.Leadership.Rivals.{request_of, votes_of, promote_follower-finalize_election}
use vaylix.Replication.Run.{Event, handle, run_events}
use vaylix.Replication.Run.Sound.{IsSound, run_events-IsSound}
use vaylix.Replication.Run.Monotone.{IsLater, handle-IsLater}
use vaylix.Replication.Run.Ballot.{
  granted, IsVote, handle_vote_request-IsVote, single_vote, finalize_election_unique,
}

abbrev member_of : String → ClusterMember
member_of id = record { node_id = id; advertise_addr = id; voter = true }

abbrev three : Table ClusterMember
three = ("n1", member_of "n1") ∷ ("n2", member_of "n2") ∷ ("n3", member_of "n3") ∷ []

abbrev config_of : String → WriteAckMode → ReplicationConfig
config_of id mode = record {
  node_id = id;
  advertise_addr = none;
  write_ack_mode = mode;
  fetch_batch_size = 100;
  stale_after = 50;
  election_timeout_min = 100;
  election_timeout_max = 200;
}

abbrev progress_at : ℕ → FollowerProgress
progress_at n = record {
  match_index = n;
  next_sequence = n + 1;
  last_ack_at = 0;
  last_ack_term = 4;
}

-- A node in term 4 that has applied 9 entries and committed 5.
abbrev node : ReplicationRole → Option String → Table FollowerProgress → ReplicationState
node role vote followers = record {
  role = role;
  is_paused = false;
  leader_node_id = none;
  leader_advertise_addr = none;
  local_last_applied_sequence = 9;
  local_last_applied_term = some 3;
  local_last_applied_checksum = none;
  commit_sequence = 5;
  leader_target_sequence = 0;
  follower_phase = none;
  follower_lag_entries = none;
  follower_lag_ms = none;
  health = "degraded";
  reason = none;
  followers = followers;
  current_term = 4;
  voted_for = vote;
  bootstrap_preferred = false;
  bootstrap_release_at = none;
  last_heartbeat_at = 0;
  next_election_at = 0;
  election_suppressed_until = none;
  members = three;
}

abbrev leading : ReplicationState
leading =
    node ReplicationRole.leader (some "n1") (("n2", progress_at 7) ∷ ("n3", progress_at 6) ∷ [])

abbrev following : ReplicationState
following = node ReplicationRole.follower none []

abbrev moment : Moment
moment = record { now = 1_000; election_timeout = 150; persist_error = none }

abbrev ask : ℕ → VoteRequest
ask index = record {
  term = 5;
  candidate_node_id = "n2";
  candidate_addr = "n2";
  last_log_index = index;
  last_log_term = some 3;
  prevote = false;
}

recompute_commit_sequence-quorum_example :
    quorum_size_from_members three
    ≤ reached
        (recompute_commit_sequence (config_of "n1" WriteAckMode.replica) leading).commit_sequence
        (voter_match_sequences (config_of "n1" WriteAckMode.replica) leading)
unfolding recompute_commit_sequence vaylix.Table.lookup
recompute_commit_sequence-quorum_example =
    recompute_commit_sequence-quorum (config_of "n1" WriteAckMode.replica) leading refl
      (omega arith)

handle_vote_request-IsVote_example :
    IsVote
      (config_of "n3" WriteAckMode.replica)
      (ask 9)
      following
      (handle_vote_request (config_of "n3" WriteAckMode.replica) moment moment (ask 9) following).1
unfolding handle_vote_request vaylix.Replication.State.is_voting_member
    vaylix.Replication.State.recently_heard_from_known_leader vaylix.Table.lookup
handle_vote_request-IsVote_example =
    handle_vote_request-IsVote (config_of "n3" WriteAckMode.replica) moment moment (ask 9) following
      refl refl

single_vote_example : (ask 9).candidate_node_id ≡ (ask 12).candidate_node_id
unfolding handle_vote_request run_events vaylix.Replication.Leadership.add_member
    vaylix.Replication.Progress.observe_leader_commit vaylix.Replication.State.is_voting_member
    vaylix.Replication.State.recently_heard_from_known_leader vaylix.Table.insert
    vaylix.Table.lookup
single_vote_example =
    single_vote (config_of "n3" WriteAckMode.replica) moment moment moment moment (ask 9) (ask 12)
      (Event.leader_commit 8 ∷ Event.add moment (member_of "n4") ∷ []) following (omega arith) refl
      refl (refl, (refl, tt)) refl refl refl

finalize_election_unique_example :
    (config_of "n1" WriteAckMode.replica).node_id ≡ (config_of "n1" WriteAckMode.all).node_id
unfolding finalize_election vaylix.Replication.Quorum.quorum_size
finalize_election_unique_example =
    finalize_election_unique (config_of "n1" WriteAckMode.replica) (config_of "n1" WriteAckMode.all)
      moment moment 4 (node ReplicationRole.candidate (some "n1") [])
      (node ReplicationRole.candidate (some "n1") []) (some "n1" ∷ none ∷ some "n1" ∷ []) refl refl

leading-IsSound : IsSound leading
leading-IsSound = record { bounded = omega arith; alone = λ a. cc; voted = refl }

run_events-IsSound_example : IsSound (
    run_events
      (config_of "n1" WriteAckMode.replica)
      (Event.applied 10 (some 4) none ∷ Event.ack 1_000 "n2" 9 4 "n1" ∷ Event.begin moment ∷ [])
      leading)
unfolding handle
run_events-IsSound_example =
    run_events-IsSound (config_of "n1" WriteAckMode.replica)
      (Event.applied 10 (some 4) none ∷ Event.ack 1_000 "n2" 9 4 "n1" ∷ Event.begin moment ∷ [])
      leading (omega arith, (tt, (tt, tt))) leading-IsSound

handle-IsLater_example : IsLater leading (
    handle
      (config_of "n1" WriteAckMode.replica)
      (Event.append_result 1_000 "n3" true 8 4 "n1")
      leading)
handle-IsLater_example =
    handle-IsLater (config_of "n1" WriteAckMode.replica)
      (Event.append_result 1_000 "n3" true 8 4 "n1") leading (omega arith) tt

-- Three followers in term 3, the first of which stands for election.
abbrev in_term_3 : ReplicationState
in_term_3 = record following { current_term = 3 }

abbrev candidacy : Candidacy
candidacy = record {
  term = 4;
  members = in_term_3.members;
  last_log_index = in_term_3.local_last_applied_sequence;
  last_log_term = in_term_3.local_last_applied_term;
}

promote_follower-finalize_election_example :
    let first = config_of "n1" WriteAckMode.replica in
    let reply =
      (handle_vote_request
        (config_of "n2" WriteAckMode.replica)
        moment
        moment
        (request_of first "h1" candidacy)
        in_term_3).0 in
    let won =
      finalize_election first moment 4
        (votes_of reply)
        3
        (begin_election first moment in_term_3).1 in
    let promoted =
      (promote_follower (config_of "n3" WriteAckMode.replica) moment true in_term_3).1 in
    (granted reply ≡ true)
    × (won.0 ≡ ok true)
    × (is_leader won.1.role ≡ true)
    × (is_leader promoted.role ≡ true)
    × (won.1.current_term ≡ promoted.current_term)
unfolding saturating_add begin_election is_voting_member up_to_date lookup
promote_follower-finalize_election_example =
    promote_follower-finalize_election (config_of "n1" WriteAckMode.replica)
      (config_of "n2" WriteAckMode.replica) (config_of "n3" WriteAckMode.replica) moment moment "h1"
      in_term_3 in_term_3 in_term_3 candidacy refl refl (omega arith) refl refl refl (omega arith)
      refl refl
