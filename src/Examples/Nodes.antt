-- ===== src/Examples/Nodes.antt =====
-- Nodes of StateMachine.ts on which its theorems apply.
use compaction.Prelude.{◌⊎◌, ◌≡◌, inr, refl, [], ◌∷◌, none, some, true, false, arith}
use compaction.Prelude.Exec.{ok}
use compaction.Examples.{trio, opened_meta, short_log, short_log-IsManaged, blank_entry}
use compaction.Storage.Config as ConfigStore
use compaction.Storage.Snapshot as SnapshotStore
use compaction.Config.Manager as ConfigManager
use compaction.Config.Manager.{get_all_peers, voter, quorum_size, get_voters}
use compaction.Log.{validate_log_entry}
use compaction.Log.Manager.{
  append_noop_entry, append_entry, append_entries, initialize, contiguous_from, validate_all,
}
use compaction.Log.Manager.Queries.{get_last_index, get_last_term}
use compaction.Storage.Log.{put_all}
use compaction.State.Persistent.{get_current_term, get_voted_for, update_term_and_vote}
use compaction.Machine.Leading.{trigger_replication}
use compaction.State.Persistent as Persistent
use compaction.State.Volatile as Volatile
use compaction.Snapshot as Snapshots
use compaction.Machine.{candidate, leader, Node, RequestVoteRequest, AppendEntriesRequest, follower}
use compaction.Machine.Elections.{
  count_vote, handle_request_vote_response, answer_vote, decide_vote, grant_vote,
  handle_election_timeout, start_pre_vote, request_pre_votes, handle_request_vote, answer,
}
use compaction.Machine.Voting.{Later}
use compaction.Machine.Voting.Runs.{run-Later, vote_once}
use compaction.Machine.Runs.{vote_answer, step, run, heartbeat, election_timeout, request_vote}
use compaction.Machine.Leadership.Elected.{IsElected, leader_by_votes}
use compaction.State.Leader.{new}
use compaction.Machine.Voting.Grants.{HasVoted, granted_vote_recorded}
use compaction.Machine.Ready.{IsReady, IsFollowing, become_follower_done}
use compaction.Machine.Roles.{become_leader, send_heartbeats, become_follower}
use compaction.Machine.Replication.{handle_append_entries}
use compaction.Machine.Replication.Commit.{IsCommitted, follow_commit-IsCommitted}
use compaction.Machine.Replication.Follower.{
  IsAccepted, IsApplicable, acceptance, append_entries-IsAccepted,
}

-- Voter "b" of three, in term 0, with two entries of term 1 in its log.
abbrev pub node_b : Node
node_b = record {
  node_id = "b";
  election_timeout_min_ms = 150;
  config_manager =
      record (ConfigManager.new (record ConfigStore.empty { is_open_flag = true }) trio) {
        initialized = true;
      };
  persistent_state = record (Persistent.new opened_meta) { initialized = true };
  volatile_state = Volatile.new;
  log_manager = short_log;
  snapshot_manager = record (Snapshots.new SnapshotStore.empty) { initialized = true };
  current_state = follower;
  current_leader = none;
  votes_received = [];
  votes_needed = 0;
  leader_state = none;
  last_leader_contact_at = 0;
  pre_vote_in_progress = false;
  pre_vote_term = 0;
  pre_votes_received = [];
  install_snapshot_session = none;
  effects = [];
}

pub node_b-IsReady : IsReady node_b
node_b-IsReady = record {
  persistent = refl;
  meta_open = refl;
  configured = refl;
  config_open = refl;
  managed = short_log-IsManaged;
}

-- "a" asks for a vote in term 5, with a log of term 4.
abbrev pub ask_b : RequestVoteRequest
ask_b = record {
  term = 5;
  candidate_id = "a";
  last_log_index = 2;
  last_log_term = 4;
  pre_vote = false;
}

abbrev voted : Node
voted = (handle_request_vote 7 ask_b node_b).1

vote_granted : (handle_request_vote 7 ask_b node_b).0 ≡ ok (answer 5 true)
unfolding handle_request_vote get_current_term voter answer_vote become_follower
    update_term_and_vote decide_vote get_voted_for get_last_index append_entries initialize
    contiguous_from validate_all validate_log_entry get_last_term grant_vote
vote_granted = refl

vote_repeated :
    (handle_request_vote 9 ask_b (run voted (heartbeat ∷ election_timeout ∷ []))).0
    ≡ ok (answer 5 true)
unfolding handle_request_vote get_current_term voter answer_vote become_follower
    update_term_and_vote decide_vote get_voted_for get_last_index append_entries initialize
    contiguous_from validate_all validate_log_entry get_last_term grant_vote run step
    trigger_replication handle_election_timeout start_pre_vote quorum_size request_pre_votes
    get_voters send_heartbeats
vote_repeated = refl

vote_once_example : ask_b.candidate_id ≡ ask_b.candidate_id
vote_once_example =
    vote_once node_b 7 9 ask_b ask_b (heartbeat ∷ election_timeout ∷ []) (answer 5 true)
      (answer 5 true) refl refl refl vote_granted refl vote_repeated refl

granted_vote_recorded_example : HasVoted ask_b voted.persistent_state
granted_vote_recorded_example =
    granted_vote_recorded 7 ask_b node_b (answer 5 true) refl vote_granted refl

run-Later_example :
    Later node_b.persistent_state
      (run node_b (request_vote 7 ask_b ∷ election_timeout ∷ [])).persistent_state
run-Later_example = run-Later node_b (request_vote 7 ask_b ∷ election_timeout ∷ [])

become_follower_done_example :
    (become_follower 3 (some "a") node_b ≡ (ok tt, (become_follower 3 (some "a") node_b).1))
    × IsFollowing 3 (some "a") node_b (become_follower 3 (some "a") node_b).1
become_follower_done_example = become_follower_done 3 (some "a") node_b node_b-IsReady

follow_commit-IsCommitted_example : IsCommitted 4 2 node_b
follow_commit-IsCommitted_example = follow_commit-IsCommitted 4 2 node_b node_b-IsReady

-- Leader "a" replaces the entry at index 2.
abbrev replace_tail : AppendEntriesRequest
replace_tail = record {
  term = 5;
  leader_id = "a";
  prev_log_index = 1;
  prev_log_term = 1;
  entries = blank_entry 2 4 ∷ blank_entry 3 5 ∷ [];
  leader_commit = 2;
}

replace_tail-IsApplicable : IsApplicable replace_tail node_b
unfolding append_entries initialize contiguous_from validate_all validate_log_entry
replace_tail-IsApplicable = record {
  contiguous = (refl, (refl, tt));
  valid = refl;
  reached = omega arith;
  in_log = omega arith;
  not_behind = inr (omega arith);
}

append_entries-IsAccepted_example :
    (n' : Node) × (handle_append_entries 7 replace_tail node_b
      ≡ (ok (acceptance 5 replace_tail), n'))
    × IsAccepted replace_tail node_b n'
unfolding append_entries initialize contiguous_from validate_all validate_log_entry put_all
append_entries-IsAccepted_example =
    append_entries-IsAccepted 7 replace_tail node_b node_b-IsReady replace_tail-IsApplicable
      (omega arith) refl

-- "b" campaigns in term 5 and has its own vote of the two that it needs.
abbrev pub campaigning : Node
campaigning = record node_b {
  current_state = candidate;
  persistent_state = record (Persistent.new opened_meta) {
    initialized = true;
    current_term = 5;
    voted_for = some "b";
  };
  votes_received = "b" ∷ [];
  votes_needed = 2;
}

vote_completes : (step campaigning (vote_answer "a" (answer 5 true))).current_state ≡ leader
unfolding step handle_request_vote_response get_current_term count_vote become_leader voter
    get_last_index append_entries initialize contiguous_from validate_all validate_log_entry
    get_all_peers send_heartbeats new append_noop_entry append_entry
vote_completes = refl

leader_by_votes_example :
    (campaigning.current_state ≡ leader) ⊎ IsElected campaigning (vote_answer "a" (answer 5 true))
leader_by_votes_example =
    leader_by_votes campaigning (vote_answer "a" (answer 5 true)) vote_completes
