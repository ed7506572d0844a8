-- ===== src/Replication/Vote/Outcome.antt =====
-- The ways through `handle_vote_request` of crates/server/src/replication/mod.rs.
use vaylix.Prelude.{◌<◌, ◌≡◌, arith}
use vaylix.Replication.State.{ReplicationConfig, ReplicationState, Moment}
use vaylix.Replication.Vote.{VoteRequest, up_to_date, adopt_term, decide_vote, handle_vote_request}

-- What a vote request leaves: the state, the state in a higher term, or either after the decision.
pub data VoteOutcome (config : ReplicationConfig) (m later : Moment) (r : VoteRequest)
    (s t : ReplicationState) : Type 0 where
  unchanged : t ≡ s → VoteOutcome config m later r s t
  raised : s.current_term < r.term → t ≡ adopt_term m r.term s → VoteOutcome config m later r s t
  raised_decided :
      s.current_term < r.term
      → t ≡ (decide_vote config later r (up_to_date r s) (adopt_term m r.term s)).1
      → VoteOutcome config m later r s t
  decided :
      r.term ≡ s.current_term
      → t ≡ (decide_vote config later r (up_to_date r s) s).1
      → VoteOutcome config m later r s t

pub handle_vote_request-VoteOutcome :
    (config : ReplicationConfig) (m later : Moment) (r : VoteRequest) (s : ReplicationState)
    → VoteOutcome config m later r s (handle_vote_request config m later r s).1
unfolding handle_vote_request
handle_vote_request-VoteOutcome config m later r s = ground arith
