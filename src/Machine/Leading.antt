-- ===== src/Machine/Leading.antt =====
-- packages/raft-core/src/core/StateMachine.ts: a leader sends its entries and counts the answers.
pub mod Batches
use compaction.Prelude.{
  ◌*◌, ℕ, zero, suc, ◌+◌, ◌-◌, min, Option, none, some, not, ◌||◌, List, [], ◌∷◌, ltb, leb, ◌==◌,
  if◌then◌else◌,
}
use compaction.Prelude.Exec.{
  Exec, Result, raft, type_error, throw, return, gets, modify, ◌>>=◌, ◌>>◌,
}
use compaction.Storage.Meta.{NodeId}
use compaction.Storage.Snapshot.{SnapshotMetaData}
use compaction.Config.{ClusterConfig}
use compaction.Config.Manager.{get_voters, get_all_peers, commit_config}
use compaction.State.Persistent.{get_current_term}
use compaction.State.Volatile.{set_commit_index}
use compaction.State.Leader
use compaction.State.Leader.{LeaderState, value}
use compaction.Log.{LogEntry}
use compaction.Log.Manager.Queries.{
  get_entry, get_entries, get_last_index, get_term_at_index, config_of,
}
use compaction.Snapshot.{get_snapshot_metadata}
use compaction.Machine.{
  AppendEntriesRequest, AppendEntriesResponse, Node, commit_index_advanced, persistent, volatile,
  log, configuration, snapshots, emit, is_leader,
}
use compaction.Machine.Roles.{become_follower, send_heartbeats, self_is_voter, others}

-- `triggerReplication`
unfoldable pub trigger_replication : Exec Node Unit
trigger_replication = do leading ← gets is_leader; if leading then send_heartbeats else return tt

abbrev pub put_leader : {A : Type 0} → Node → Result A × LeaderState → Result A × Node
put_leader n (r, s) = (r, record n { leader_state = some s })

-- A call of `this.leaderState`, on the value that was read.
abbrev pub leading : {A : Type 0} → LeaderState → Exec LeaderState A → Exec Node A
leading s f n = put_leader n (f s)

-- The code calls it where `leaderState` is not null.
abbrev pub on_leader_state : {A : Type 0} → Option LeaderState → Exec LeaderState A → Exec Node A
on_leader_state none f = throw type_error
on_leader_state (some s) f = leading s f

abbrev pub tracked : {A : Type 0} → Exec LeaderState A → Exec Node A
tracked f = do s ← gets (λ n. n.leader_state); on_leader_state s f

-- What one round of `sendAppendEntries` has to send, decided under the lock.
pub data Outgoing : Type 0 where
  nothing send_snapshot : Outgoing
  append : AppendEntriesRequest → Outgoing

abbrev pub max_append_entries_batch_entries : ℕ
max_append_entries_batch_entries = 128

abbrev pub max_append_entries_batch_bytes : ℕ
max_append_entries_batch_bytes = 512 * 1024

-- The loop of `boundAppendEntriesBySize` after its first entry, `used` bytes in. The encoded size of
-- an entry is the parameter `bytes`.
unfoldable pub bound_from : (LogEntry → ℕ) → ℕ → List LogEntry → List LogEntry
bound_from bytes used [] = []
bound_from bytes used (e ∷ es) =
    let rest = bound_from bytes (used + bytes e) es in
    if ltb max_append_entries_batch_bytes (used + bytes e) then [] else e ∷ rest

unfoldable pub bound_append_entries_by_size : (LogEntry → ℕ) → List LogEntry → List LogEntry
unfolding bound_from
bound_append_entries_by_size bytes [] = []
bound_append_entries_by_size bytes (e ∷ []) = e ∷ []
bound_append_entries_by_size bytes (e ∷ es) = e ∷ bound_from bytes (bytes e) es

abbrev snapshot_index_of : Option SnapshotMetaData → ℕ
snapshot_index_of none = 0
snapshot_index_of (some m) = m.last_included_index

unfoldable pub batch : (LogEntry → ℕ) → ℕ → Exec Node (List LogEntry)
unfolding bound_append_entries_by_size
batch bytes next = do
  last ← log get_last_index
  if ltb last next then return [] else do
    es ← log (get_entries next (min last (next + max_append_entries_batch_entries - 1)))
    return (bound_append_entries_by_size bytes es)

abbrev pub build_append : (LogEntry → ℕ) → ℕ → Exec Node Outgoing
build_append bytes next = do
  current ← persistent get_current_term
  prev_term ← log (get_term_at_index (next - 1))
  es ← batch bytes next
  self ← gets (λ n. n.node_id)
  commit ← gets (λ n. n.volatile_state.commit_index)
  return (
      append (record {
        term = current;
        leader_id = self;
        prev_log_index = next - 1;
        prev_log_term = value prev_term;
        entries = es;
        leader_commit = commit;
      }))

abbrev pub prepare_for : (LogEntry → ℕ) → NodeId → Option LeaderState → Exec Node Outgoing
prepare_for bytes peer none = return nothing
prepare_for bytes peer (some s) = do
  next ← leading s (Leader.get_next_index peer)
  meta ← snapshots get_snapshot_metadata
  if leb next (snapshot_index_of meta) then return send_snapshot else build_append bytes next

-- The locked section of `sendAppendEntries`.
unfoldable pub prepare_append : (LogEntry → ℕ) → NodeId → Exec Node Outgoing
prepare_append bytes peer = do s ← gets (λ n. n.leader_state); prepare_for bytes peer s

-- `this.leaderState.addPeer(peer, lastIndex)` for each peer.
abbrev pub add_all : List NodeId → ℕ → LeaderState → LeaderState
add_all [] last s = s
add_all (p ∷ ps) last s = add_all ps last (Leader.add_peer p last s)

abbrev pub add_peers_in : List NodeId → ℕ → Option LeaderState → Option LeaderState
add_peers_in ps last none = none
add_peers_in ps last (some s) = some (add_all ps last s)

abbrev pub commit_config_at : Option ClusterConfig → Exec Node Unit
commit_config_at none = return tt
commit_config_at (some c) = do
  configuration (commit_config c)
  self ← gets (λ n. n.node_id)
  peers ← configuration (get_all_peers self)
  last ← log get_last_index
  modify (λ n. record n { leader_state = add_peers_in peers last n.leader_state })

-- The loop of `tryAdvanceCommitIndex`: `k` rounds from index `i`.
unfoldable pub commit_each : ℕ → ℕ → Exec Node Unit
commit_each zero i = return tt
commit_each (suc k) i = do
  entry ← log (get_entry i)
  commit_config_at (config_of entry)
  commit_each k (i + 1)

abbrev pub step_down_unless_voter : ℕ → Exec Node Unit
step_down_unless_voter term = do
  can ← self_is_voter
  if can then return tt else become_follower term none

unfoldable pub advance_to : ℕ → ℕ → Exec Node Unit
advance_to term target = do
  current ← gets (λ n. n.volatile_state.commit_index)
  if not (ltb current target) then return tt else do
    commit_each (target - current) (current + 1)
    volatile (set_commit_index target)
    emit (commit_index_advanced target)
    step_down_unless_voter term

abbrev pub require_state : Option LeaderState → Exec Node Unit
require_state none = throw raft
require_state (some s) = return tt

unfoldable pub try_advance_commit_index : Exec Node Unit
try_advance_commit_index = do
  state ← gets (λ n. n.leader_state)
  require_state state
  term ← persistent get_current_term
  self ← gets (λ n. n.node_id)
  voters ← configuration get_voters
  entries ← gets (λ n. n.log_manager)
  target ← tracked (Leader.calculate_commit_index term entries (others self voters))
  advance_to term target

abbrev pub count_success : NodeId → Option ℕ → Exec Node Unit
count_success from none = return tt
count_success from (some i) = do
  tracked (Leader.get_match_index from)
  tracked (Leader.update_match_index from i)
  try_advance_commit_index

abbrev pub backtrack : NodeId → Option ℕ → Option ℕ → Exec Node Unit
backtrack from (some i) (some t) = do
  entries ← gets (λ n. n.log_manager)
  tracked (Leader.update_next_index_with_conflict from i t entries)
backtrack from _ _ = tracked (Leader.decrement_next_index from)

abbrev pub count_failure : NodeId → AppendEntriesResponse → Exec Node Unit
count_failure from response = do
  tracked (Leader.get_next_index from)
  backtrack from response.conflict_index response.conflict_term
  tracked (Leader.get_next_index from)
  return tt

abbrev pub count_answer : NodeId → AppendEntriesResponse → Option LeaderState → Exec Node Unit
count_answer from response none = return tt
count_answer from response (some s) = do
  current ← persistent get_current_term
  if ltb current response.term then become_follower response.term none else do
    leads ← gets is_leader
    if not (response.term == current) || not leads
        then return tt
        else if response.success
        then count_success from response.match_index
        else count_failure from response

-- `handleAppendEntriesResponse`
unfoldable pub handle_append_entries_response : NodeId → AppendEntriesResponse → Exec Node Unit
handle_append_entries_response from response = do
  s ← gets (λ n. n.leader_state)
  count_answer from response s
