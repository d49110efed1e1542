-- ===== src/Machine/Elections.antt =====
-- packages/raft-core/src/core/StateMachine.ts: votes, pre-votes and the election timeout.
pub mod Answers
pub mod Alone
use compaction.Prelude.{
  ℕ, ◌+◌, ◌-◌, Option, none, some, Bool, true, false, not, ◌&&◌, ◌||◌, [], ◌∷◌, ltb, leb, ◌==◌,
  if◌then◌else◌, opt_eq, is_some, add_to_set, length,
}
use compaction.Prelude.Exec.{Exec, return, gets, modify, ◌>>=◌, ◌>>◌}
use compaction.Storage.Meta.{NodeId}
use compaction.Config.Manager.{voter, quorum_size, get_voters}
use compaction.State.Persistent.{get_current_term, get_voted_for, update_term_and_vote}
use compaction.Log.Manager.Queries.{get_last_index, get_last_term}
use compaction.Machine.{
  follower, candidate, RequestVoteRequest, RequestVoteResponse, Node, start_election_timer,
  reset_election_timer, send_pre_vote, persistent, log, configuration, emit, same_state, is_leader,
}
use compaction.Machine.Roles.{
  become_follower, become_candidate, become_leader, self_is_voter, emit_each, others,
}

-- `isLogUpToDate`, on the last index and term of the voter.
unfoldable pub is_up_to_date : ℕ → ℕ → ℕ → ℕ → Bool
is_up_to_date index term last_index last_term =
    if ltb last_term term then true else if ltb term last_term then false else leb last_index index

abbrev is_log_up_to_date : RequestVoteRequest → Exec Node Bool
is_log_up_to_date request = do
  last_index ← log get_last_index
  last_term ← log get_last_term
  return (is_up_to_date request.last_log_index request.last_log_term last_index last_term)

abbrev pub answer : ℕ → Bool → RequestVoteResponse
answer t granted = record { term = t; vote_granted = granted }

abbrev pub deny : Exec Node RequestVoteResponse
deny = do t ← persistent get_current_term; return (answer t false)

-- The branch for `request.preVote`; `now` is `performance.now()`.
unfoldable pub handle_pre_vote : ℕ → RequestVoteRequest → ℕ → Bool → Exec Node RequestVoteResponse
unfolding is_up_to_date
handle_pre_vote now request current members =
    if ltb request.term current || not members then return (answer current false) else do
      quiet ← gets (λ n.
          n.last_leader_contact_at == 0
          || leb n.election_timeout_min_ms (now - n.last_leader_contact_at))
      up_to_date ← is_log_up_to_date request
      return (answer current (quiet && up_to_date))

abbrev pub step_down_if : Bool → ℕ → Exec Node Unit
step_down_if true term = become_follower term none
step_down_if false term = return tt

unfoldable pub grant_vote : RequestVoteRequest → Exec Node RequestVoteResponse
grant_vote request = do
  persistent (update_term_and_vote request.term (some request.candidate_id))
  emit reset_election_timer
  t ← persistent get_current_term
  return (answer t true)

-- `votedFor === null || votedFor === request.candidateId`
abbrev pub can_grant : Option NodeId → NodeId → Bool
can_grant voted candidate_id = not (is_some voted) || opt_eq voted (some candidate_id)

unfoldable pub decide_vote : RequestVoteRequest → Exec Node RequestVoteResponse
unfolding is_up_to_date
decide_vote request = do
  voted ← persistent get_voted_for
  if not (can_grant voted request.candidate_id) then deny else do
    up_to_date ← is_log_up_to_date request
    if not up_to_date then deny else grant_vote request

-- What follows the branch for pre-votes.
unfoldable pub answer_vote : RequestVoteRequest → ℕ → Bool → Bool → Exec Node RequestVoteResponse
answer_vote request current self_votes candidate_votes =
    if ltb request.term current then return (answer current false) else do
      step_down_if (ltb current request.term) request.term
      if not self_votes || not candidate_votes then deny else decide_vote request

-- `handleRequestVote`; the sender is used in log lines only.
unfoldable pub handle_request_vote : ℕ → RequestVoteRequest → Exec Node RequestVoteResponse
handle_request_vote now request = do
  current ← persistent get_current_term
  self_votes ← self_is_voter
  candidate_votes ← configuration (voter request.candidate_id)
  if request.pre_vote
      then handle_pre_vote now request current (self_votes && candidate_votes)
      else answer_vote request current self_votes candidate_votes

unfoldable pub request_pre_votes : Exec Node Unit
request_pre_votes = do
  term ← persistent get_current_term
  last_index ← log get_last_index
  last_term ← log get_last_term
  self ← gets (λ n. n.node_id)
  voters ← configuration get_voters
  emit_each
      (λ p. send_pre_vote p (record {
        term = term + 1;
        candidate_id = self;
        last_log_index = last_index;
        last_log_term = last_term;
        pre_vote = true;
      }))
      (others self voters)

-- `startPreVoteUnlocked`
unfoldable pub start_pre_vote : Exec Node Unit
start_pre_vote = do
  modify (λ n. record n { pre_vote_in_progress = true })
  term ← persistent get_current_term
  modify (λ n. record n { pre_vote_term = term; pre_votes_received = [] })
  can ← self_is_voter
  if can then modify (λ n. record n { pre_votes_received = n.node_id ∷ [] }) else return tt
  quorum ← configuration quorum_size
  enough ← gets (λ n. leb quorum (length n.pre_votes_received))
  if enough
      then (do modify (λ n. record n { pre_vote_in_progress = false }); become_candidate)
      else (do emit start_election_timer; request_pre_votes)

-- `handleElectionTimeoutUnlocked`
unfoldable pub handle_election_timeout : Exec Node Unit
handle_election_timeout = do
  can ← self_is_voter
  leading ← gets is_leader
  if not can || leading then return tt else do
    probing ← gets (λ n. n.pre_vote_in_progress)
    if probing
        then (do
          modify (λ n. record n { pre_vote_in_progress = false; pre_votes_received = [] })
          start_pre_vote)
        else (do
          campaigning ← gets (λ n. same_state n.current_state candidate)
          if campaigning then become_candidate else start_pre_vote)

unfoldable pub count_pre_vote : NodeId → Exec Node Unit
count_pre_vote from = do
  modify (λ n. record n { pre_votes_received = add_to_set from n.pre_votes_received })
  quorum ← configuration quorum_size
  enough ← gets (λ n. leb quorum (length n.pre_votes_received))
  if enough
      then (do modify (λ n. record n { pre_vote_in_progress = false }); become_candidate)
      else return tt

-- `handlePreVoteResponse`
unfoldable pub handle_pre_vote_response : NodeId → RequestVoteResponse → Exec Node Unit
handle_pre_vote_response from response = do
  probing ← gets (λ n. n.pre_vote_in_progress)
  if not probing then return tt else do
    following ← gets (λ n. same_state n.current_state follower)
    if not following then modify (λ n. record n { pre_vote_in_progress = false }) else do
      current ← persistent get_current_term
      if ltb current response.term then become_follower response.term none else do
        started ← gets (λ n. n.pre_vote_term)
        if not (current == started)
            then modify (λ n. record n { pre_vote_in_progress = false })
            else if response.vote_granted
            then count_pre_vote from
            else return tt

unfoldable pub count_vote : NodeId → Exec Node Unit
count_vote from = do
  modify (λ n. record n { votes_received = add_to_set from n.votes_received })
  enough ← gets (λ n. leb n.votes_needed (length n.votes_received))
  if enough then become_leader else return tt

-- `handleRequestVoteResponse`
unfoldable pub handle_request_vote_response : NodeId → RequestVoteResponse → Exec Node Unit
handle_request_vote_response from response = do
  current ← persistent get_current_term
  if ltb current response.term then become_follower response.term none else do
    campaigning ← gets (λ n. same_state n.current_state candidate)
    if not campaigning || not (response.term == current)
        then return tt
        else if response.vote_granted
        then count_vote from
        else return tt
