-- ===== src/Log/Manager/Runs.antt =====
-- The invariant of LogManager.ts over any sequence of its writing methods.
use compaction.Prelude.{◌+◌, ℕ, List, [], ◌∷◌, some, ◌≡◌, true, subst, sym, arith}
use compaction.Log.{LogEntry, Command, LogEntryType}
use compaction.Config.{ClusterConfig}
use compaction.Storage.Log.{LogStorage}
use compaction.Storage.Log.Invariant.{IsLog}
use compaction.Log.Manager.{
  append_next, blank, LogManager, new, initialize, append_entry, append_entries,
  delete_entries_from, clear, discard_entries_up_to, reset_to_snapshot, append_command,
  append_config_entry, append_noop_entry, append_drop_log_entry,
}
use compaction.Log.Manager.Invariant.{
  IsManaged, initialize-IsManaged, append_entry-IsManaged, append_entries-IsManaged,
  delete-IsManaged, discard-IsManaged, reset-IsManaged, clear-IsManaged,
}
use compaction.Log.Manager.Reconcile.{append_entries_from}
use compaction.Log.Manager.Reconcile.Keeping.{reconcile-IsManaged}

pub data Op : Type 0 where
  append_one : LogEntry → Op
  append_many : List LogEntry → Op
  take_over : ℕ → List LogEntry → Op
  command_at : Command → ℕ → Op
  config_at : ClusterConfig → ℕ → Op
  noop_at : ℕ → Op
  drop_log_at : ℕ → ℕ → ℕ → Op
  delete : ℕ → Op
  clear_all : Op
  discard reset_to : ℕ → ℕ → Op

abbrev pub apply : LogManager → Op → LogManager
apply l (append_one e) = (append_entry e l).1
apply l (append_many es) = (append_entries es l).1
apply l (take_over prev es) = (append_entries_from prev es l).1
apply l (command_at c t) = (append_command c t l).1
apply l (config_at c t) = (append_config_entry c t l).1
apply l (noop_at t) = (append_noop_entry t l).1
apply l (drop_log_at t a b) = (append_drop_log_entry t a b l).1
apply l (delete i) = (delete_entries_from i l).1
apply l clear_all = (clear l).1
apply l (discard i t) = (discard_entries_up_to i t l).1
apply l (reset_to i t) = (reset_to_snapshot i t l).1

abbrev pub run : LogManager → List Op → LogManager
run l [] = l
run l (o ∷ os) = run (apply l o) os

append_next-state :
    (make : ℕ → LogEntry) (l : LogManager)
    → (append_next make l).1 ≡ (append_entry (make (l.last_index + 1)) l).1
append_next-state make l = ground arith

next-IsManaged :
    (make : ℕ → LogEntry) (l : LogManager) → IsManaged l → IsManaged (append_next make l).1
next-IsManaged make l h =
    subst IsManaged (sym (append_next-state make l))
      (append_entry-IsManaged (make (l.last_index + 1)) l h)

command-IsManaged :
    (c : Command) (t : ℕ) (l : LogManager) → IsManaged l → IsManaged (append_command c t l).1
unfolding append_command
command-IsManaged c t l h =
    next-IsManaged (λ i. record (blank i t LogEntryType.command) { command = some c }) l h

config-IsManaged :
    (c : ClusterConfig) (t : ℕ) (l : LogManager)
    → IsManaged l
    → IsManaged (append_config_entry c t l).1
unfolding append_config_entry
config-IsManaged c t l h =
    next-IsManaged (λ i. record (blank i t LogEntryType.config) { config = some c }) l h

pub noop-IsManaged : (t : ℕ) (l : LogManager) → IsManaged l → IsManaged (append_noop_entry t l).1
unfolding append_noop_entry
noop-IsManaged t l h = next-IsManaged (λ i. blank i t LogEntryType.noop) l h

drop-IsManaged :
    (t a b : ℕ) (l : LogManager) → IsManaged l → IsManaged (append_drop_log_entry t a b l).1
unfolding append_drop_log_entry
drop-IsManaged t a b l h =
    next-IsManaged
      (λ i. record (blank i t LogEntryType.droplog) {
        start_idx = some a;
        final_idx = some (b + 1);
      })
      l h

apply-IsManaged : (o : Op) (l : LogManager) → IsManaged l → IsManaged (apply l o)
apply-IsManaged (append_one e) l h = append_entry-IsManaged e l h
apply-IsManaged (append_many es) l h = append_entries-IsManaged es l h
apply-IsManaged (take_over prev es) l h = reconcile-IsManaged prev es l h
apply-IsManaged (command_at c t) l h = command-IsManaged c t l h
apply-IsManaged (config_at c t) l h = config-IsManaged c t l h
apply-IsManaged (noop_at t) l h = noop-IsManaged t l h
apply-IsManaged (drop_log_at t a b) l h = drop-IsManaged t a b l h
apply-IsManaged (delete i) l h = delete-IsManaged i l h
apply-IsManaged clear_all l h = clear-IsManaged l h
apply-IsManaged (discard i t) l h = discard-IsManaged i t l h
apply-IsManaged (reset_to i t) l h = reset-IsManaged i t l h

-- From a well-formed open storage, after the manager is initialized and any sequence of its writing
-- methods is called, whether they succeed or throw, exactly the indices between the boundary and
-- the tail hold an entry, each at its own index, and the cached metadata is the storage's.
pub run-IsManaged :
    (os : List Op) (s : LogStorage)
    → IsLog s
    → s.is_open_flag ≡ true
    → IsManaged (run (initialize (new s)).1 os)
run-IsManaged os s h o = go os (initialize (new s)).1 (initialize-IsManaged s h o)
  where
    go : (os : List Op) (l : LogManager) → IsManaged l → IsManaged (run l os)
    go [] l k = k
    go (p ∷ ps) l k = go ps (apply l p) (apply-IsManaged p l k)
