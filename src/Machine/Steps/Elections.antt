-- ===== src/Machine/Steps/Elections.antt =====
-- The handlers of vote requests, pre-vote answers and timeouts in StateMachine.ts, in the
-- relations that allow their parts.
use compaction.Prelude.{ℕ, Bool}
use compaction.Storage.Meta.{NodeId}
use compaction.Machine.{Node, RequestVoteRequest, RequestVoteResponse}
use compaction.Machine.Elections.{
  handle_pre_vote, request_pre_votes, start_pre_vote, handle_election_timeout, count_pre_vote,
  handle_pre_vote_response,
}
use compaction.Machine.Steps.{Allows, Within, Anyone}
use compaction.Machine.Steps.Rules.{Within-follow}
use compaction.Machine.Steps.Reads.{within_rules}
use compaction.Machine.Steps.Transitions.{emit_each-Within, Within-campaign}

module _ (R : Node → Node → Type 0) (S : Allows R) where
  pub handle_pre_vote-Within :
      (now : ℕ) (r : RequestVoteRequest) (t : ℕ) (m : Bool)
      → Within R Anyone (handle_pre_vote now r t m)
  unfolding handle_pre_vote
  handle_pre_vote-Within now r t m = search within_rules depth 12

  request_pre_votes-Within : Within R Anyone request_pre_votes
  unfolding request_pre_votes
  request_pre_votes-Within = search (within_rules, emit_each-Within) depth 14

  start_pre_vote-Within : Within R Anyone start_pre_vote
  unfolding start_pre_vote
  start_pre_vote-Within = search (within_rules, Within-campaign, request_pre_votes-Within) depth 20

  pub handle_election_timeout-Within : Within R Anyone handle_election_timeout
  unfolding handle_election_timeout
  handle_election_timeout-Within =
      search (within_rules, Within-campaign, start_pre_vote-Within) depth 20

  count_pre_vote-Within : (p : NodeId) → Within R Anyone (count_pre_vote p)
  unfolding count_pre_vote
  count_pre_vote-Within p = search (within_rules, Within-campaign) depth 14

  pub handle_pre_vote_response-Within :
      (p : NodeId) (r : RequestVoteResponse) → Within R Anyone (handle_pre_vote_response p r)
  unfolding handle_pre_vote_response
  handle_pre_vote_response-Within p r =
      search (within_rules, Within-follow, count_pre_vote-Within) depth 20
