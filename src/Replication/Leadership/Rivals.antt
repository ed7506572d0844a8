-- ===== src/Replication/Leadership/Rivals.antt =====
-- Two leaders of one term: `promote_follower` beside an election, in
-- crates/server/src/replication/mod.rs.
use vaylix.Prelude.{
  ℕ, Result, if◌then◌else◌, String, sym, ap, ◌∙◌, ◌≤◌, ◌<◌, ◌≡◌, refl, true, false, none, ok, arith,
  saturating_add, saturating_add_exact, u64_max,
}
use vaylix.Replication.State.{
  ReplicationConfig, ReplicationState, Moment, ServerError, is_follower, is_candidate, is_leader,
  is_voting_member, recently_heard_from_known_leader,
}
use vaylix.Replication.Quorum.{quorum_size}
use vaylix.Replication.Vote.{
  VoteRequest, VoteResponse, handle_vote_request, up_to_date, adopt_term, decide_vote, cast_vote,
}
use vaylix.Replication.Run.Ballot.{granted}
use vaylix.Replication.Leadership.{Candidacy, begin_election, finalize_election, promote_follower}

-- The request that a candidate sends after `begin_election`.
abbrev pub request_of : ReplicationConfig → String → Candidacy → VoteRequest
request_of config addr asked = record {
  term = asked.term;
  candidate_node_id = config.node_id;
  candidate_addr = addr;
  last_log_index = asked.last_log_index;
  last_log_term = asked.last_log_term;
  prevote = false;
}

-- The candidate's votes after the answer of one voter.
abbrev pub votes_of : Result ServerError VoteResponse → ℕ
votes_of reply = if granted reply then 2 else 1

vote_granted :
    (config : ReplicationConfig) (m later : Moment) (r : VoteRequest) (v : ReplicationState)
    → m.persist_error ≡ none
    → later.persist_error ≡ none
    → r.prevote ≡ false
    → v.current_term < r.term
    → is_voting_member v r.candidate_node_id ≡ true
    → up_to_date r v ≡ true
    → granted (handle_vote_request config m later r v).0 ≡ true
unfolding handle_vote_request adopt_term decide_vote cast_vote recently_heard_from_known_leader
vote_granted config m later r v p q vote behind member fits =
    ground (arith, p, q, vote, behind, member, fits)

-- The candidacy and the state of a candidate whose term was written.
begin_election-ok :
    (config : ReplicationConfig) (m : Moment) (c : ReplicationState) (asked : Candidacy)
    → (begin_election config m c).0 ≡ ok asked
    → (asked.term ≡ saturating_add c.current_term 1)
      × ((begin_election config m c).1.current_term ≡ asked.term)
      × (is_candidate (begin_election config m c).1.role ≡ true)
unfolding begin_election
begin_election-ok config m c asked h = ground (arith, h)

finalize_election-leads :
    (config : ReplicationConfig) (m : Moment) (term votes members : ℕ) (t : ReplicationState)
    → m.persist_error ≡ none
    → t.current_term ≡ term
    → is_candidate t.role ≡ true
    → quorum_size members ≤ votes
    → ((finalize_election config m term votes members t).0 ≡ ok true)
      × (is_leader (finalize_election config m term votes members t).1.role ≡ true)
      × ((finalize_election config m term votes members t).1.current_term ≡ term)
unfolding finalize_election
finalize_election-leads config m term votes members t p at c q = ground (arith, p, at, c, q)

promote_follower-leads :
    (config : ReplicationConfig) (m : Moment) (s : ReplicationState)
    → is_follower s.role ≡ true
    → (is_leader (promote_follower config m true s).1.role ≡ true)
      × ((promote_follower config m true s).1.current_term ≡ saturating_add s.current_term 1)
unfolding promote_follower
promote_follower-leads config m s f = ground (arith, f)

quorum_of_three : quorum_size 3 ≤ 2
unfolding quorum_size
quorum_of_three = omega arith

-- Three nodes in one term, or the voter in an earlier one: a node begins an election, and the second,
-- of which it is a voting member and whose log is not ahead of it, votes for it, whatever it voted
-- before. With this vote and its own the election is won; the third node, a follower that is promoted
-- in the meantime under maintenance, leads in the same term beside it. No write of a state fails.
pub promote_follower-finalize_election :
    (config config' config'' : ReplicationConfig) (m later : Moment) (addr : String)
    (c v s : ReplicationState) (asked : Candidacy)
    → m.persist_error ≡ none
    → later.persist_error ≡ none
    → c.current_term < u64_max
    → (begin_election config m c).0 ≡ ok asked
    → s.current_term ≡ c.current_term
    → is_follower s.role ≡ true
    → v.current_term ≤ c.current_term
    → is_voting_member v config.node_id ≡ true
    → up_to_date (request_of config addr asked) v ≡ true
    → let reply = (handle_vote_request config' m later (request_of config addr asked) v).0 in
      let won =
        finalize_election config later asked.term
          (votes_of reply)
          3
          (begin_election config m c).1 in
      let promoted = (promote_follower config'' m true s).1 in
      (granted reply ≡ true)
      × (won.0 ≡ ok true)
      × (is_leader won.1.role ≡ true)
      × (is_leader promoted.role ≡ true)
      × (won.1.current_term ≡ promoted.current_term)
promote_follower-finalize_election config config' config'' m later addr c v s asked p q small begun
      same f behind member fits =
    let (term, at, candidate) = begin_election-ok config m c asked begun in
    let next = saturating_add_exact c.current_term 1 (omega (arith, small)) in
    let vote =
      vote_granted config' m later (request_of config addr asked) v p q refl
        (omega (arith, term, next, behind)) member fits in
    let (won, leads, there) =
      finalize_election-leads config later asked.term 2 3 (begin_election config m c).1 q at
        candidate quorum_of_three in
    let (promoted, here) = promote_follower-leads config'' m s f in
    rw (vote) (
      refl,
      won,
      leads,
      promoted,
      there ∙ term ∙ ap (λ n. saturating_add n 1) (sym same) ∙ sym here,
    )
