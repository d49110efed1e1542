-- ===== src/Machine/Replication.antt =====
-- packages/raft-core/src/core/StateMachine.ts: a follower takes entries over from its leader.
pub mod Commit
pub mod Takeover
pub mod Follower
use compaction.Prelude.{
  ℕ, zero, suc, ◌+◌, ◌-◌, min, Option, none, some, Bool, true, false, not, ◌&&◌, ◌||◌, List, [],
  ◌∷◌, ltb, leb, ◌==◌, if◌then◌else◌, length,
}
use compaction.Prelude.Exec.{Exec, Result, ok, err, return, gets, modify, resume, ◌>>=◌, ◌>>◌}
use compaction.Storage.Meta.{NodeId}
use compaction.Config.{ClusterConfig}
use compaction.Config.Manager.{apply_config_entry, commit_config}
use compaction.State.Persistent.{get_current_term}
use compaction.State.Volatile.{set_commit_index}
use compaction.Log.{LogEntry}
use compaction.Log.Manager.Queries.{matches_prev_log, get_conflict_info, get_entry, config_of}
use compaction.Log.Manager.Reconcile.{append_entries_from}
use compaction.Machine.{
  AppendEntriesRequest, AppendEntriesResponse, Node, commit_index_advanced, persistent, volatile,
  log, configuration, emit,
}
use compaction.Machine.Roles.{become_follower}

abbrev pub rejection : ℕ → AppendEntriesResponse
rejection t = record {
  term = t;
  success = false;
  match_index = none;
  conflict_index = none;
  conflict_term = none;
}

-- The answer to a mismatch at `prevLogIndex`, with the hint for the leader.
unfoldable pub reject_mismatch : ℕ → Exec Node AppendEntriesResponse
reject_mismatch prev = do
  info ← log (get_conflict_info prev)
  t ← persistent get_current_term
  return (record (rejection t) {
    conflict_index = some info.conflict_index;
    conflict_term = some info.conflict_term;
  })

abbrev pub apply_config : Option ClusterConfig → Exec Node Unit
apply_config none = return tt
apply_config (some c) = configuration (apply_config_entry c)

-- The loop over the new entries: a configuration is active as soon as it is in the log.
unfoldable pub apply_configs : List LogEntry → Exec Node Unit
apply_configs [] = return tt
apply_configs (e ∷ es) = do apply_config (config_of (some e)); apply_configs es

abbrev pub commit_if : Option ClusterConfig → Exec Node Unit
commit_if none = return tt
commit_if (some c) = configuration (commit_config c)

-- The loop over the newly committed indices: `n` rounds from `i`.
unfoldable pub commit_configs : ℕ → ℕ → Exec Node Unit
commit_configs zero i = return tt
commit_configs (suc n) i = do
  entry ← log (get_entry i)
  commit_if (config_of entry)
  commit_configs n (i + 1)

-- `lastNewEntryIndex` bounds what the leader's commit index can commit here.
unfoldable pub follow_commit : ℕ → ℕ → Exec Node Unit
follow_commit leader_commit last_new = do
  current ← gets (λ n. n.volatile_state.commit_index)
  let target = min leader_commit last_new
  if not (ltb current leader_commit) then return tt else do
    commit_configs (target - current) (current + 1)
    volatile (set_commit_index target)
    emit (commit_index_advanced target)

abbrev pub take_over : ℕ → List LogEntry → Exec Node Unit
take_over prev [] = return tt
take_over prev (e ∷ es) = do log (append_entries_from prev (e ∷ es)); apply_configs (e ∷ es)

unfoldable pub accept_entries : AppendEntriesRequest → Exec Node AppendEntriesResponse
accept_entries request = do
  take_over request.prev_log_index request.entries
  follow_commit request.leader_commit (request.prev_log_index + length request.entries)
  t ← persistent get_current_term
  return (record (rejection t) {
    success = true;
    match_index = some (request.prev_log_index + length request.entries);
  })

-- `handleAppendEntries`; `now` is `performance.now()`, and the sender is used in log lines only.
unfoldable pub handle_append_entries : ℕ → AppendEntriesRequest → Exec Node AppendEntriesResponse
handle_append_entries now request = do
  current ← persistent get_current_term
  if ltb request.term current then return (rejection current) else do
    modify (λ n. record n { last_leader_contact_at = now })
    become_follower request.term (some request.leader_id)
    matches ← log (matches_prev_log request.prev_log_index request.prev_log_term)
    if not matches then reject_mismatch request.prev_log_index else accept_entries request
