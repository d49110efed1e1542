-- ===== src/Log/Manager/Queries.antt =====
-- packages/raft-core/src/log/LogManager.ts: the methods that only read.
pub mod Answers
use compaction.Prelude.{
  ℕ, zero, suc, ◌+◌, ◌-◌, Option, none, some, Bool, true, false, not, ◌&&◌, ◌||◌, List, [], ◌∷◌,
  ltb, leb, ◌==◌, if◌then◌else◌, last, filter, length, is_some, String,
}
use compaction.Prelude.Exec.{
  Exec, Result, ok, err, storage, log_inconsistency, Error, invalid, throw, throw_if, gets, modify,
  return, resume, ◌>>=◌, ◌>>◌,
}
use compaction.Config.{ClusterConfig}
use compaction.Log.{
  LogEntry, LogEntryType, Command, command, config, noop, droplog, validate_log_entry,
}
use compaction.Storage.Log
use compaction.Storage.Log.{LogStorage, LogStorageMeta}
use compaction.Log.Manager.{
  LogManager, with_storage, on_storage, normalize, normalized, safe_storage, checked,
  ensure_initialized, append_entries, delete_entries_from,
}

unfoldable pub get_entry : ℕ → Exec LogManager (Option LogEntry)
unfolding ensure_initialized Log.get_entry
get_entry i = do
  ensure_initialized
  outside ← gets (λ l. leb i l.snapshot_index || ltb l.last_index i)
  if outside then return none else safe_storage (on_storage (Log.get_entry i))

unfoldable pub get_entries : ℕ → ℕ → Exec LogManager (List LogEntry)
unfolding ensure_initialized Log.get_entries
get_entries from to = do
  ensure_initialized
  bad ← gets (λ l. leb from l.snapshot_index || (ltb l.last_index to || ltb to from))
  throw_if bad log_inconsistency
  safe_storage (on_storage (Log.get_entries from to))

unfoldable pub get_first_index : Exec LogManager ℕ
unfolding ensure_initialized
get_first_index = do
  ensure_initialized
  empty ← gets (λ l. l.last_index == 0 && l.snapshot_index == 0)
  throw_if empty log_inconsistency
  gets (λ l. l.snapshot_index + 1)

abbrev pub entry_term : Option LogEntry → Option ℕ
entry_term none = none
entry_term (some e) = some e.term

unfoldable pub get_term_at_index : ℕ → Exec LogManager (Option ℕ)
unfolding ensure_initialized get_entry
get_term_at_index i = do
  ensure_initialized
  boundary ← gets (λ l. i == l.snapshot_index)
  if boundary
      then gets (λ l. some l.snapshot_term)
      else do entry ← get_entry i; return (entry_term entry)

-- `entry !== null && entry.term === term`
abbrev pub has_term : Option LogEntry → ℕ → Bool
has_term none t = false
has_term (some e) t = e.term == t

unfoldable pub has_matching_entry : ℕ → ℕ → Exec LogManager Bool
unfolding ensure_initialized get_entry
has_matching_entry i t = do
  ensure_initialized
  if i == 0 then return true else do
    boundary ← gets (λ l. i == l.snapshot_index)
    if boundary then gets (λ l. l.snapshot_term == t) else do
      below ← gets (λ l. ltb i l.snapshot_index)
      if below then return false else do entry ← get_entry i; return (has_term entry t)

unfoldable pub get_last_entry : Exec LogManager (Option LogEntry)
unfolding ensure_initialized get_entry
get_last_entry = do
  ensure_initialized
  absent ← gets (λ l. l.last_index == 0 || l.last_index == l.snapshot_index)
  if absent then return none else do i ← gets (λ l. l.last_index); get_entry i

unfoldable pub get_last_index : Exec LogManager ℕ
unfolding ensure_initialized
get_last_index = do ensure_initialized; gets (λ l. l.last_index)

unfoldable pub get_last_term : Exec LogManager ℕ
unfolding ensure_initialized
get_last_term = do ensure_initialized; gets (λ l. l.last_term)

unfoldable pub get_entries_from_index : ℕ → Exec LogManager (List LogEntry)
unfolding ensure_initialized get_entries
get_entries_from_index index = do
  ensure_initialized
  compacted ← gets (λ l. leb index l.snapshot_index)
  throw_if compacted log_inconsistency
  ahead ← gets (λ l. ltb l.last_index index)
  if ahead then return [] else do to ← gets (λ l. l.last_index); get_entries index to

unfoldable pub matches_prev_log : ℕ → ℕ → Exec LogManager Bool
unfolding ensure_initialized get_entry
matches_prev_log prev_log_index prev_log_term = do
  ensure_initialized
  if prev_log_index == 0 then return (prev_log_term == 0) else do
    boundary ← gets (λ l. prev_log_index == l.snapshot_index)
    if boundary
        then gets (λ l. l.snapshot_term == prev_log_term)
        else do entry ← get_entry prev_log_index; return (has_term entry prev_log_term)

pub record ConflictInfo : Type 0 where
  pub conflict_index : ℕ
  pub conflict_term : ℕ

-- The `while` loop of `getConflictInfo`: one step down, if there is a reason to go on.
abbrev step_down : ℕ → ℕ → Option LogEntry → Exec LogManager ℕ → Exec LogManager ℕ
step_down i t entry rest = if not (has_term entry t) then return i else rest

unfoldable pub first_of_run : ℕ → ℕ → Exec LogManager ℕ
first_of_run zero t = return zero
first_of_run (suc i) t = do
  inside ← gets (λ l. ltb (l.snapshot_index + 1) (suc i))
  if inside
      then (do entry ← get_entry i; step_down (suc i) t entry (first_of_run i t))
      else return (suc i)

unfoldable pub conflict_at : ℕ → Option LogEntry → Exec LogManager ConflictInfo
conflict_at prev none = gets (λ l. record { conflict_index = l.last_index + 1; conflict_term = 0 })
conflict_at prev (some e) = do
  i ← first_of_run prev e.term
  return (record { conflict_index = i; conflict_term = e.term })

unfoldable pub get_conflict_info : ℕ → Exec LogManager ConflictInfo
unfolding ensure_initialized conflict_at
get_conflict_info prev = do
  ensure_initialized
  beyond ← gets (λ l. ltb l.last_index prev)
  if beyond
      then gets (λ l. record { conflict_index = l.last_index + 1; conflict_term = 0 })
      else (do entry ← get_entry prev; conflict_at prev entry)

unfoldable pub get_snapshot_index : Exec LogManager ℕ
unfolding ensure_initialized
get_snapshot_index = do ensure_initialized; gets (λ l. l.snapshot_index)

-- `entry && entry.type === CONFIG && entry.config`
abbrev pub config_of : Option LogEntry → Option ClusterConfig
config_of none = none
config_of (some e) = elim e.type [ LogEntryType.config ↦ e.config | _ ↦ none ]

abbrev stop_at :
    Option ClusterConfig
    → Exec LogManager (Option ClusterConfig)
    → Exec LogManager (Option ClusterConfig)
stop_at (some c) rest = return (some c)
stop_at none rest = rest

-- The loop of `getLastConfigEntry` from index `i` down.
pub last_config_from : ℕ → Exec LogManager (Option ClusterConfig)
last_config_from zero = return none
last_config_from (suc i) = do
  inside ← gets (λ l. ltb l.snapshot_index (suc i))
  if inside
      then (do entry ← get_entry (suc i); stop_at (config_of entry) (last_config_from i))
      else return none

unfoldable pub get_last_config_entry : Exec LogManager (Option ClusterConfig)
unfolding ensure_initialized
get_last_config_entry = do ensure_initialized; i ← gets (λ l. l.last_index); last_config_from i
