-- ===== src/Examples/Clusters.antt =====
-- A cluster of three StateMachine.ts nodes that elects a leader.
use compaction.Prelude.{[], ◌∷◌, ◌≡◌, inl, refl, true, false}
use compaction.Examples.{trio}
use compaction.Machine.Campaigns.Answers.{Tally, vote_answer_counted}
use compaction.Examples.Nodes.{campaigning, node_b, node_b-IsReady}
use compaction.Storage.Meta.{NodeId}
use compaction.Machine.{Node, RequestVoteRequest, leader}
use compaction.Machine.Elections.{
  answer, count_vote, handle_request_vote_response, answer_vote, decide_vote, grant_vote,
  handle_election_timeout, start_pre_vote, request_pre_votes, handle_request_vote,
  handle_pre_vote_response, count_pre_vote,
}
use compaction.Machine.Roles.{
  become_leader, send_heartbeats, become_follower, become_candidate, stand_for_election,
  request_votes,
}
use compaction.Config.Manager.{get_all_peers, voter, quorum_size, get_voters}
use compaction.Log.{validate_log_entry}
use compaction.Log.Manager.{
  append_noop_entry, append_entry, append_entries, initialize, contiguous_from, validate_all,
}
use compaction.Log.Manager.Queries.{get_last_index, get_last_term}
use compaction.State.Persistent.{get_current_term, get_voted_for, update_term_and_vote}
use compaction.State.Leader.{new}
use compaction.Machine.Ready.{IsReady}
use compaction.Machine.Ready.Runs.{run-IsReady}
use compaction.Machine.Runs.{
  run, step, vote_answer, pre_vote_answer, election_timeout, request_vote, stopping, starting,
  heartbeat,
}
use compaction.Cluster.{Cluster, IsInitial, Reach, Cast, initial, next, handles, after}
use compaction.Cluster.Safety.{one_leader}

abbrev member : NodeId → Node
member i = record node_b { node_id = i }

abbrev quiet : Cluster
quiet = record { nodes = member; cast = [] }

quiet-IsInitial : IsInitial trio quiet
quiet-IsInitial = record {
  ready = λ i. record {
    persistent = refl;
    meta_open = refl;
    configured = refl;
    config_open = refl;
    managed = node_b-IsReady.managed;
  };
  node_id = λ i. refl;
  active = λ i. refl;
  role = λ i. refl;
  uncast = refl;
}

abbrev ask_vote : RequestVoteRequest
ask_vote = record {
  term = 1;
  candidate_id = "a";
  last_log_index = 2;
  last_log_term = 1;
  pre_vote = false;
}

abbrev elected : NodeId
elected = "a"

abbrev probing : Cluster
probing = after quiet "a" election_timeout

abbrev running : Cluster
running = after probing "a" (pre_vote_answer "b" (answer 0 true))

abbrev voting : Cluster
voting = after running "b" (request_vote 7 ask_vote)

abbrev led : Cluster
led = after voting "a" (vote_answer "b" (answer 1 true))

probing-Reach : Reach trio probing
unfolding step handle_election_timeout start_pre_vote request_pre_votes get_voters quorum_size voter
    get_current_term get_last_index get_last_term append_entries initialize contiguous_from
    validate_all validate_log_entry handle_pre_vote_response count_pre_vote become_candidate
    stand_for_election request_votes update_term_and_vote handle_request_vote answer_vote
    decide_vote grant_vote get_voted_for become_follower handle_request_vote_response count_vote
    become_leader get_all_peers send_heartbeats new append_noop_entry append_entry
probing-Reach =
    next quiet probing (initial quiet quiet-IsInitial) (handles quiet "a" election_timeout tt refl)

running-Reach : Reach trio running
unfolding step handle_election_timeout start_pre_vote request_pre_votes get_voters quorum_size voter
    get_current_term get_last_index get_last_term append_entries initialize contiguous_from
    validate_all validate_log_entry handle_pre_vote_response count_pre_vote become_candidate
    stand_for_election request_votes update_term_and_vote handle_request_vote answer_vote
    decide_vote grant_vote get_voted_for become_follower handle_request_vote_response count_vote
    become_leader get_all_peers send_heartbeats new append_noop_entry append_entry
running-Reach =
    next probing running probing-Reach
      (handles probing "a" (pre_vote_answer "b" (answer 0 true)) tt refl)

voting-Reach : Reach trio voting
unfolding step handle_election_timeout start_pre_vote request_pre_votes get_voters quorum_size voter
    get_current_term get_last_index get_last_term append_entries initialize contiguous_from
    validate_all validate_log_entry handle_pre_vote_response count_pre_vote become_candidate
    stand_for_election request_votes update_term_and_vote handle_request_vote answer_vote
    decide_vote grant_vote get_voted_for become_follower handle_request_vote_response count_vote
    become_leader get_all_peers send_heartbeats new append_noop_entry append_entry
voting-Reach =
    next running voting running-Reach (handles running "b" (request_vote 7 ask_vote) tt refl)

was_cast : Cast "b" 1 "a" voting.cast
unfolding step handle_election_timeout start_pre_vote request_pre_votes get_voters quorum_size voter
    get_current_term get_last_index get_last_term append_entries initialize contiguous_from
    validate_all validate_log_entry handle_pre_vote_response count_pre_vote become_candidate
    stand_for_election request_votes update_term_and_vote handle_request_vote answer_vote
    decide_vote grant_vote get_voted_for become_follower handle_request_vote_response count_vote
    become_leader get_all_peers send_heartbeats new append_noop_entry append_entry
was_cast = inl (refl, refl, refl)

led-Reach : Reach trio led
unfolding step handle_election_timeout start_pre_vote request_pre_votes get_voters quorum_size voter
    get_current_term get_last_index get_last_term append_entries initialize contiguous_from
    validate_all validate_log_entry handle_pre_vote_response count_pre_vote become_candidate
    stand_for_election request_votes update_term_and_vote handle_request_vote answer_vote
    decide_vote grant_vote get_voted_for become_follower handle_request_vote_response count_vote
    become_leader get_all_peers send_heartbeats new append_noop_entry append_entry
led-Reach =
    next voting led voting-Reach
      (handles voting "a" (vote_answer "b" (answer 1 true)) (λ g. was_cast) refl)

leads : (led.nodes "a").current_state ≡ leader
unfolding step handle_election_timeout start_pre_vote request_pre_votes get_voters quorum_size voter
    get_current_term get_last_index get_last_term append_entries initialize contiguous_from
    validate_all validate_log_entry handle_pre_vote_response count_pre_vote become_candidate
    stand_for_election request_votes update_term_and_vote handle_request_vote answer_vote
    decide_vote grant_vote get_voted_for become_follower handle_request_vote_response count_vote
    become_leader get_all_peers send_heartbeats new append_noop_entry append_entry
leads = refl

one_leader_example : elected ≡ elected
one_leader_example = one_leader trio led elected elected led-Reach leads leads refl

run-IsReady_example : IsReady (run node_b (election_timeout ∷ heartbeat ∷ stopping ∷ starting ∷ []))
run-IsReady_example =
    run-IsReady node_b (election_timeout ∷ heartbeat ∷ stopping ∷ starting ∷ []) node_b-IsReady

vote_answer_counted_example :
    IsReady (handle_request_vote_response "a" (answer 5 true) campaigning).1
    × Tally "a"
        (answer 5 true)
        campaigning
        (handle_request_vote_response "a" (answer 5 true) campaigning).1
vote_answer_counted_example = vote_answer_counted "a" (answer 5 true) campaigning (record {
  persistent = refl;
  meta_open = refl;
  configured = refl;
  config_open = refl;
  managed = node_b-IsReady.managed;
})
