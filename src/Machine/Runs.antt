-- ===== src/Machine/Runs.antt =====
-- Runs of a node of packages/raft-core/src/core/StateMachine.ts: one event at a time, each handled
-- from its first line to its last. The source holds the state lock meanwhile, except in `stop` and
-- in the first line of `start`.
use compaction.Prelude.{ℕ, List, [], ◌∷◌}
use compaction.Prelude.Exec.{Result}
use compaction.Storage.Meta.{NodeId}
use compaction.Storage.Snapshot.{Buffer}
use compaction.Machine.{
  Node, RequestVoteRequest, RequestVoteResponse, AppendEntriesRequest, AppendEntriesResponse,
  InstallSnapshotRequest,
}
use compaction.Machine.Elections.{
  handle_request_vote, handle_election_timeout, handle_pre_vote_response,
  handle_request_vote_response,
}
use compaction.Machine.Replication.{handle_append_entries}
use compaction.Machine.Leading.{handle_append_entries_response, trigger_replication}
use compaction.Machine.Installing.{handle_install_snapshot}
use compaction.Machine.Roles.{start, stop}

-- What can happen to a node: a message, an answer, a timer, or a call of its owner.
pub data Event : Type 0 where
  request_vote : ℕ → RequestVoteRequest → Event
  append_entries : ℕ → AppendEntriesRequest → Event
  install_snapshot : (Buffer → Result (Unit {0})) → ℕ → NodeId → InstallSnapshotRequest → Event
  vote_answer pre_vote_answer : NodeId → RequestVoteResponse → Event
  append_answer : NodeId → AppendEntriesResponse → Event
  election_timeout heartbeat starting stopping : Event

-- The node after the event, whether its handler returned or threw.
unfoldable pub step : Node → Event → Node
step n (request_vote now r) = (handle_request_vote now r n).1
step n (append_entries now r) = (handle_append_entries now r n).1
step n (install_snapshot f now p r) = (handle_install_snapshot f now p r n).1
step n (vote_answer p r) = (handle_request_vote_response p r n).1
step n (pre_vote_answer p r) = (handle_pre_vote_response p r n).1
step n (append_answer p r) = (handle_append_entries_response p r n).1
step n election_timeout = (handle_election_timeout n).1
step n heartbeat = (trigger_replication n).1
step n starting = (start n).1
step n stopping = (stop n).1

unfoldable pub run : Node → List Event → Node
run n [] = n
run n (e ∷ es) = run (step n e) es
