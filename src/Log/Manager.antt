-- ===== src/Log/Manager.antt =====
-- packages/raft-core/src/log/LogManager.ts: the log behind its checks, with the metadata cached.
-- Events that it emits for observers are left out.
pub mod Queries
pub mod Reconcile
pub mod Invariant
pub mod Effects
pub mod Runs
use compaction.Prelude.{
  ℕ, zero, suc, ◌+◌, ◌-◌, Option, none, some, Bool, true, false, not, ◌&&◌, ◌||◌, List, [], ◌∷◌,
  ltb, leb, ◌==◌, if◌then◌else◌, last, filter, length, is_some, String,
}
use compaction.Prelude.Exec.{
  Exec, Result, ok, err, storage, log_inconsistency, Error, invalid, throw, throw_if, gets, modify,
  return, resume, ◌>>=◌, ◌>>◌,
}
use compaction.Config.{ClusterConfig}
use compaction.Log.{
  LogEntry, LogEntryType, Command, command, config, noop, droplog, validate_log_entry,
}
use compaction.Storage.Log
use compaction.Storage.Log.{LogStorage, LogStorageMeta}

pub record LogManager : Type 0 where
  pub log_storage : LogStorage
  pub last_index : ℕ
  pub last_term : ℕ
  pub snapshot_index : ℕ
  pub snapshot_term : ℕ
  pub initialized : Bool

abbrev pub new : LogStorage → LogManager
new s = record {
  log_storage = s;
  last_index = 0;
  last_term = 0;
  snapshot_index = 0;
  snapshot_term = 0;
  initialized = false;
}

abbrev pub with_storage : {A : Type 0} → LogManager → Result A × LogStorage → Result A × LogManager
with_storage l (r, s) = (r, record l { log_storage = s })

-- A call of the storage.
abbrev pub on_storage : {A : Type 0} → Exec LogStorage A → Exec LogManager A
on_storage f l = with_storage l (f l.log_storage)

-- What `safeStorage` makes of an error.
abbrev pub normalize : Error → Error
normalize log_inconsistency = log_inconsistency
normalize _ = storage

abbrev pub normalized : {A : Type 0} → Result A × LogManager → Result A × LogManager
normalized (ok a, l) = (ok a, l)
normalized (err e, l) = (err (normalize e), l)

abbrev pub safe_storage : {A : Type 0} → Exec LogManager A → Exec LogManager A
safe_storage f l = normalized (f l)

-- `lift` of a check that throws without touching the state.
abbrev pub checked : Result (Unit {0}) → Exec LogManager Unit
checked r l = (r, l)

unfoldable pub ensure_initialized : Exec LogManager Unit
ensure_initialized l = throw_if (not l.initialized) storage l

unfoldable pub initialize : Exec LogManager Unit
unfolding Log.read_meta
initialize l =
    if l.initialized
    then (ok tt, l)
    else safe_storage
        (do
          meta ← on_storage Log.read_meta
          modify (λ l. record l {
            last_index = meta.last_index;
            last_term = meta.last_term;
            snapshot_index = meta.snapshot_index;
            snapshot_term = meta.snapshot_term;
            initialized = true;
          }))
        l

unfoldable pub append_entry : LogEntry → Exec LogManager ℕ
unfolding ensure_initialized Log.append validate_log_entry
append_entry entry = do
  ensure_initialized
  checked (validate_log_entry entry)
  misplaced ← gets (λ l. not (entry.index == l.last_index + 1))
  throw_if misplaced log_inconsistency
  safe_storage (do
    on_storage (Log.append (entry ∷ []))
    modify (λ l. record l { last_index = entry.index; last_term = entry.term }))
  return entry.index

-- The first loop of `appendEntries`.
unfoldable pub contiguous_from : ℕ → List LogEntry → Bool
contiguous_from k [] = true
contiguous_from k (e ∷ es) = (e.index == k) && contiguous_from (k + 1) es

-- The second loop.
unfoldable pub validate_all : List LogEntry → Result (Unit {0})
validate_all [] = ok tt
validate_all (e ∷ es) =
    let rest = validate_all es in elim (validate_log_entry e) [ ok u ↦ rest | err x ↦ err x ]

append_nonempty : LogEntry → List LogEntry → Exec LogManager ℕ
unfolding Log.append
append_nonempty e es = do
  misplaced ← gets (λ l. not (contiguous_from (l.last_index + 1) (e ∷ es)))
  throw_if misplaced log_inconsistency
  checked (validate_all (e ∷ es))
  safe_storage (do
    on_storage (Log.append (e ∷ es))
    modify (λ l. record l { last_index = (last e es).index; last_term = (last e es).term }))
  gets (λ l. l.last_index)

abbrev append_given : List LogEntry → Exec LogManager ℕ
append_given [] = gets (λ l. l.last_index)
append_given (e ∷ es) = append_nonempty e es

unfoldable pub append_entries : List LogEntry → Exec LogManager ℕ
unfolding ensure_initialized append_nonempty
append_entries es = do ensure_initialized; append_given es

unfoldable pub delete_entries_from : ℕ → Exec LogManager Unit
unfolding ensure_initialized Log.truncate_from Log.read_meta
delete_entries_from index = do
  ensure_initialized
  compacted ← gets (λ l. leb index l.snapshot_index)
  throw_if compacted log_inconsistency
  beyond ← gets (λ l. ltb l.last_index index)
  throw_if beyond log_inconsistency
  safe_storage (do
    on_storage (Log.truncate_from index)
    meta ← on_storage Log.read_meta
    modify (λ l. record l { last_index = meta.last_index; last_term = meta.last_term }))

unfoldable pub clear : Exec LogManager Unit
unfolding ensure_initialized delete_entries_from
clear = do
  ensure_initialized
  nothing ← gets (λ l. leb l.last_index l.snapshot_index)
  if nothing then return tt else do i ← gets (λ l. l.snapshot_index + 1); delete_entries_from i

abbrev pub blank : ℕ → ℕ → LogEntryType → LogEntry
blank i t k = record {
  term = t;
  index = i;
  type = k;
  command = none;
  config = none;
  start_idx = none;
  final_idx = none;
}

abbrev pub append_next : (ℕ → LogEntry) → Exec LogManager ℕ
append_next make = do i ← gets (λ l. l.last_index + 1); append_entry (make i); return i

unfoldable pub append_command : Command → ℕ → Exec LogManager ℕ
append_command c t = append_next (λ i. record (blank i t LogEntryType.command) { command = some c })

unfoldable pub append_config_entry : ClusterConfig → ℕ → Exec LogManager ℕ
append_config_entry c t =
    append_next (λ i. record (blank i t LogEntryType.config) { config = some c })

unfoldable pub append_noop_entry : ℕ → Exec LogManager ℕ
append_noop_entry t = append_next (λ i. blank i t noop)

unfoldable pub append_drop_log_entry : ℕ → ℕ → ℕ → Exec LogManager ℕ
append_drop_log_entry t from to =
    append_next
      (λ i. record (blank i t droplog) { start_idx = some from; final_idx = some (to + 1) })

unfoldable pub discard_entries_up_to : ℕ → ℕ → Exec LogManager Unit
unfolding ensure_initialized Log.compact Log.read_meta
discard_entries_up_to index t = do
  ensure_initialized
  done ← gets (λ l. leb index l.snapshot_index)
  if done then return tt else do
    beyond ← gets (λ l. ltb l.last_index index)
    throw_if beyond log_inconsistency
    safe_storage (do
      on_storage (Log.compact index t)
      meta ← on_storage Log.read_meta
      modify (λ l. record l {
        snapshot_index = meta.snapshot_index;
        snapshot_term = meta.snapshot_term;
        last_index = meta.last_index;
        last_term = meta.last_term;
      }))

unfoldable pub reset_to_snapshot : ℕ → ℕ → Exec LogManager Unit
unfolding ensure_initialized Log.reset
reset_to_snapshot index t = do
  ensure_initialized
  safe_storage (do
    on_storage (Log.reset index t)
    modify (λ l. record l {
      snapshot_index = index;
      snapshot_term = t;
      last_index = index;
      last_term = t;
    }))
