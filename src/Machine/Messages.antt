-- ===== src/Machine/Messages.antt =====
-- packages/raft-core/src/core/StateMachine.ts: the tasks that send one request to a peer and handle
-- its answer. What the RPC handler answers or throws, and whatever the node handles until then, are
-- the parameters `vote_rpc`, `append_rpc` and `snapshot_rpc`; what it handles between two locked
-- sections is `between`.
pub mod Tasks
use compaction.Prelude.{ℕ}
use compaction.Prelude.Exec.{Exec, return, ◌>>=◌, ◌>>◌}
use compaction.Storage.Meta.{NodeId}
use compaction.Log.{LogEntry}
use compaction.Machine.{
  Node, RequestVoteRequest, RequestVoteResponse, AppendEntriesRequest, AppendEntriesResponse,
  InstallSnapshotRequest, InstallSnapshotResponse,
}
use compaction.Machine.Roles.{try_ignoring}
use compaction.Machine.Elections.{handle_pre_vote_response, handle_request_vote_response}
use compaction.Machine.Leading.{
  Outgoing, nothing, append, send_snapshot, prepare_append, handle_append_entries_response,
}
use compaction.Machine.Sending as Sending

module _ (vote_rpc : NodeId → RequestVoteRequest → Exec Node RequestVoteResponse) where
  -- `sendPreVote`
  abbrev pub send_pre_vote : NodeId → RequestVoteRequest → Exec Node Unit
  send_pre_vote peer request =
      try_ignoring (do response ← vote_rpc peer request; handle_pre_vote_response peer response)

  -- `sendRequestVote`
  abbrev pub send_request_vote : NodeId → RequestVoteRequest → Exec Node Unit
  send_request_vote peer request =
      try_ignoring (do response ← vote_rpc peer request; handle_request_vote_response peer response)

module _ (append_rpc : NodeId → AppendEntriesRequest → Exec Node AppendEntriesResponse)
    (snapshot_rpc : NodeId → InstallSnapshotRequest → Exec Node InstallSnapshotResponse)
    (between : NodeId → Exec Node Unit) (bytes : LogEntry → ℕ) (size : ℕ) where
  abbrev pub send_outgoing : NodeId → Outgoing → Exec Node Unit
  send_outgoing peer nothing = return tt
  send_outgoing peer send_snapshot = do between peer; Sending.send_snapshot size snapshot_rpc peer
  send_outgoing peer (append request) = do
    response ← append_rpc peer request
    handle_append_entries_response peer response

  -- `sendAppendEntries`; `bytes` is the encoded size of an entry and `size` that of a chunk.
  abbrev pub send_append_entries : NodeId → Exec Node Unit
  send_append_entries peer =
      try_ignoring (do outgoing ← prepare_append bytes peer; send_outgoing peer outgoing)
