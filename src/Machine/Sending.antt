-- ===== src/Machine/Sending.antt =====
-- packages/raft-core/src/core/StateMachine.ts: a leader sends its snapshot in chunks.
pub mod Rounds
pub mod Received
pub mod Installed
pub mod Exchange
pub mod Transfer
use compaction.Prelude.{
  ℕ, zero, suc, ◌+◌, ◌-◌, min, Option, none, some, Bool, true, false, not, ◌&&◌, ◌||◌, List, [],
  ltb, leb, ◌==◌, if◌then◌else◌, length, take, drop,
}
use compaction.Prelude.Exec.{Exec, return, gets, ◌>>=◌, ◌>>◌}
use compaction.Storage.Meta.{NodeId}
use compaction.Storage.Snapshot.{Buffer, Snapshot}
use compaction.Config.{ClusterConfig}
use compaction.State.Persistent.{get_current_term}
use compaction.State.Leader
use compaction.State.Leader.{LeaderState}
use compaction.Snapshot.{load_snapshot}
use compaction.Machine.{
  InstallSnapshotRequest, InstallSnapshotResponse, Node, persistent, snapshots,
}
use compaction.Machine.Roles.{become_follower, try_ignoring}
use compaction.Machine.Leading.{tracked}

pub record SnapshotToSend : Type 0 where
  pub term : ℕ
  pub last_included_index : ℕ
  pub last_included_term : ℕ
  pub bytes : Buffer
  pub config : ClusterConfig

abbrev pub with_term : Option Snapshot → Exec Node (Option SnapshotToSend)
with_term none = return none
with_term (some s) = do
  t ← persistent get_current_term
  return (
      some (record {
        term = t;
        last_included_index = s.last_included_index;
        last_included_term = s.last_included_term;
        bytes = s.bytes;
        config = s.config;
      }))

-- The first locked section of `sendSnapshot`.
unfoldable pub snapshot_to_send : Exec Node (Option SnapshotToSend)
snapshot_to_send = do s ← snapshots load_snapshot; with_term s

-- `data.subarray(from, to)`
abbrev pub subarray : Buffer → ℕ → ℕ → Buffer
subarray bytes from to = take (to - from) (drop from bytes)

abbrev pub next_offset : ℕ → SnapshotToSend → ℕ → ℕ
next_offset size s offset = min (offset + size) (length s.bytes)

abbrev pub is_last : ℕ → SnapshotToSend → ℕ → Bool
is_last size s offset = leb (length s.bytes) (next_offset size s offset)

-- The request of the round at `offset`; `size` is `snapshotChunkSizeBytes`.
abbrev pub chunk_request : ℕ → NodeId → SnapshotToSend → ℕ → InstallSnapshotRequest
chunk_request size self s offset = record {
  term = s.term;
  leader_id = self;
  last_included_index = s.last_included_index;
  last_included_term = s.last_included_term;
  bytes = subarray s.bytes offset (next_offset size s offset);
  config = s.config;
  offset = offset;
  done = is_last size s offset;
}

abbrev pub complete : NodeId → SnapshotToSend → Bool → Exec Node Bool
complete peer s true = do
  tracked (Leader.update_match_index peer s.last_included_index)
  return false
complete peer s false = return false

abbrev pub weigh :
    NodeId → SnapshotToSend → Bool → InstallSnapshotResponse → Option LeaderState → Exec Node Bool
weigh peer s done response none = return true
weigh peer s done response (some l) = do
  current ← persistent get_current_term
  if ltb current response.term
      then (do become_follower response.term none; return true)
      else if not response.success
      then return true
      else complete peer s done

-- The locked section after an answer: whether to stop.
unfoldable pub should_abort :
    NodeId → SnapshotToSend → Bool → InstallSnapshotResponse → Exec Node Bool
should_abort peer s done response = do l ← gets (λ n. n.leader_state); weigh peer s done response l

-- The loop from `offset`, for as many rounds as the first argument allows. The answer of the peer,
-- or an exception, and whatever the node handles until it comes, is the parameter `rpc`.
unfoldable pub send_chunks :
    ℕ
    → ℕ
    → (NodeId → InstallSnapshotRequest → Exec Node InstallSnapshotResponse)
    → NodeId
    → SnapshotToSend
    → ℕ
    → Exec Node Unit
send_chunks zero size rpc peer s offset = return tt
send_chunks (suc k) size rpc peer s offset =
    if not (ltb offset (length s.bytes) || (length s.bytes == 0 && offset == 0))
    then return tt
    else do
      self ← gets (λ n. n.node_id)
      response ← rpc peer (chunk_request size self s offset)
      abort ← should_abort peer s (is_last size s offset) response
      if abort || is_last size s offset
          then return tt
          else send_chunks k size rpc peer s (next_offset size s offset)

abbrev pub send_all :
    ℕ
    → (NodeId → InstallSnapshotRequest → Exec Node InstallSnapshotResponse)
    → NodeId
    → Option SnapshotToSend
    → Exec Node Unit
send_all size rpc peer none = return tt
send_all size rpc peer (some s) =
    try_ignoring (send_chunks (suc (length s.bytes)) size rpc peer s 0)

-- `sendSnapshot`
unfoldable pub send_snapshot :
    ℕ
    → (NodeId → InstallSnapshotRequest → Exec Node InstallSnapshotResponse)
    → NodeId
    → Exec Node Unit
unfolding send_chunks
send_snapshot size rpc peer = do o ← snapshot_to_send; send_all size rpc peer o
