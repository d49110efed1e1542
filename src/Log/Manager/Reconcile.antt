-- ===== src/Log/Manager/Reconcile.antt =====
-- packages/raft-core/src/log/LogManager.ts: `appendEntriesFrom`, by which a follower takes over its
-- leader's entries.
pub mod Search
pub mod Matching
pub mod Keeping
use compaction.Prelude.{
  ℕ, zero, suc, ◌+◌, ◌-◌, Option, none, some, Bool, true, false, not, ◌&&◌, ◌||◌, List, [], ◌∷◌,
  ltb, leb, ◌==◌, if◌then◌else◌, last, filter, length, is_some, String,
}
use compaction.Prelude.Exec.{
  Exec, Result, ok, err, storage, log_inconsistency, Error, invalid, throw, throw_if, gets, modify,
  return, resume, ◌>>=◌, ◌>>◌,
}
use compaction.Config.{ClusterConfig}
use compaction.Log.{
  LogEntry, LogEntryType, Command, command, config, noop, droplog, validate_log_entry,
}
use compaction.Storage.Log
use compaction.Storage.Log.{LogStorage, LogStorageMeta}
use compaction.Log.Manager.{
  LogManager, with_storage, on_storage, normalize, normalized, safe_storage, checked,
  ensure_initialized, append_entries, delete_entries_from,
}
use compaction.Log.Manager.Queries.{get_entry}

-- One round of the search for a conflict: `none` ends it with no truncation.
abbrev compare_entry :
    LogEntry → Option LogEntry → Exec LogManager (Option ℕ) → Exec LogManager (Option ℕ)
compare_entry new_entry none rest = return none
compare_entry new_entry (some existing) rest =
    if not (existing.term == new_entry.term) then return (some new_entry.index) else rest

pub find_conflict : List LogEntry → Exec LogManager (Option ℕ)
find_conflict [] = return none
find_conflict (e ∷ es) = do
  existing ← get_entry e.index
  compare_entry e existing (find_conflict es)

abbrev truncate_at : Option ℕ → Exec LogManager Unit
truncate_at none = return tt
truncate_at (some i) = delete_entries_from i

abbrev append_rest : List LogEntry → Exec LogManager ℕ
append_rest [] = gets (λ l. l.last_index)
append_rest (e ∷ es) = append_entries (e ∷ es)

pub reconcile : List LogEntry → Exec LogManager ℕ
reconcile es = do
  conflict ← find_conflict es
  truncate_at conflict
  tail ← gets (λ l. l.last_index)
  append_rest (filter (λ e. ltb tail e.index) es)

abbrev reconcile_given : List LogEntry → Exec LogManager ℕ
reconcile_given [] = gets (λ l. l.last_index)
reconcile_given (e ∷ es) = reconcile (e ∷ es)

-- The parameter `prevLogIndex` is not used by the source either.
unfoldable pub append_entries_from : ℕ → List LogEntry → Exec LogManager ℕ
unfolding ensure_initialized reconcile
append_entries_from prev_log_index es = do ensure_initialized; reconcile_given es
