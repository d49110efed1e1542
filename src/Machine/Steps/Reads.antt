-- ===== src/Machine/Steps/Reads.antt =====
-- The calls of StateMachine.ts that only read a collaborator, and the writing calls of the log.
use compaction.Prelude.{ℕ, ◌≡◌, refl, arith, Option, List}
use compaction.Prelude.{◌+◌, ltb, Bool, true, false, zero, suc, none, some, if◌then◌else◌, ◌∙◌, not}
use compaction.Prelude.Exec.{Exec, Result, ok, err, gets, return, resume, ◌>>=◌}
use compaction.Log.{LogEntry}
use compaction.Storage.Meta.{NodeId}
use compaction.State.Persistent.{PersistentState, get_current_term}
use compaction.Config.Manager.{ConfigManager, voter, quorum_size, get_voters, get_all_peers}
use compaction.Log.{LogEntry}
use compaction.Log.Manager.{LogManager, ensure_initialized}
use compaction.Log.Manager.Queries.{
  get_last_index, get_last_term, get_entry, matches_prev_log, get_conflict_info, first_of_run,
  conflict_at, has_term, get_term_at_index, get_entries,
}
use compaction.Machine.Steps.Rules.{
  Within-bind, Within-gets, Within-return, Within-throw, Within-if, Within-modify, Within-emit,
  Within-volatile, Within-snapshots, Within-log_read, Within-read, Within-config_read,
}

pub get_current_term_same : (p : PersistentState) → (get_current_term p).1 ≡ p
unfolding get_current_term
get_current_term_same p = ground arith

pub voter_same : (i : NodeId) (c : ConfigManager) → (voter i c).1 ≡ c
unfolding voter
voter_same i c = ground arith

pub quorum_size_same : (c : ConfigManager) → (quorum_size c).1 ≡ c
unfolding quorum_size
quorum_size_same c = ground arith

pub get_voters_same : (c : ConfigManager) → (get_voters c).1 ≡ c
unfolding get_voters
get_voters_same c = ground arith

pub get_all_peers_same : (i : NodeId) (c : ConfigManager) → (get_all_peers i c).1 ≡ c
unfolding get_all_peers
get_all_peers_same i c = ground arith

pub get_last_index_same : (l : LogManager) → (get_last_index l).1 ≡ l
unfolding get_last_index
get_last_index_same l = ground arith

pub get_last_term_same : (l : LogManager) → (get_last_term l).1 ≡ l
unfolding get_last_term
get_last_term_same l = ground arith

pub get_entry_same : (i : ℕ) (l : LogManager) → (get_entry i l).1 ≡ l
unfolding get_entry
get_entry_same i l = ground arith

pub matches_prev_log_same : (i t : ℕ) (l : LogManager) → (matches_prev_log i t l).1 ≡ l
unfolding matches_prev_log
matches_prev_log_same i t l = ground arith

record IsRead {A : Type 0} (m : Exec LogManager A) : Type 0 where
  at : (l : LogManager) → (m l).1 ≡ l

IsRead-bind :
    {A B : Type 0} (m : Exec LogManager A) (f : A → Exec LogManager B)
    → IsRead m
    → ((a : A) → IsRead (f a))
    → IsRead (m >>= f)
IsRead-bind {A} {B} m f hm hf = record { at = λ l. go l (m l) (hm.at l) }
  where
    go : (l : LogManager) (x : Result A × LogManager) → x.1 ≡ l → (resume f x).1 ≡ l
    go l (ok a, l') e = (hf a).at l' ∙ e
    go l (err x, l') e = e

IsRead-gets : {A : Type 0} (f : LogManager → A) → IsRead (gets f)
IsRead-gets f = record { at = λ l. refl }

IsRead-return : {A : Type 0} (a : A) → IsRead {A = A} (return a)
IsRead-return a = record { at = λ l. refl }

IsRead-if :
    {A : Type 0} (b : Bool) (m k : Exec LogManager A)
    → IsRead m
    → IsRead k
    → IsRead (if b then m else k)
IsRead-if true m k hm hk = hm
IsRead-if false m k hm hk = hk

IsRead-entry : (i : ℕ) → IsRead (get_entry i)
IsRead-entry i = record { at = get_entry_same i }

IsRead-ensure : IsRead ensure_initialized
unfolding ensure_initialized
IsRead-ensure = record { at = λ l. ground arith }

ruleset read_rules =
    (IsRead-bind, IsRead-gets, IsRead-return, IsRead-if, IsRead-entry, IsRead-ensure)

IsRead-run : (i t : ℕ) → IsRead (first_of_run i t)
unfolding first_of_run
IsRead-run zero t = search read_rules
IsRead-run (suc i) t =
    IsRead-bind (gets (λ l. ltb (l.snapshot_index + 1) (suc i))) _ (IsRead-gets _) (λ inside.
      IsRead-if inside _ (return (suc i))
        (IsRead-bind (get_entry i) _ (IsRead-entry i) (λ entry.
          IsRead-if (not (has_term entry t)) (return (suc i)) (first_of_run i t)
            (IsRead-return (suc i)) (IsRead-run i t)))
        (IsRead-return (suc i)))

IsRead-conflict : (i : ℕ) (o : Option LogEntry) → IsRead (conflict_at i o)
unfolding conflict_at
IsRead-conflict i none = search read_rules
IsRead-conflict i (some e) = search (read_rules, IsRead-run)

IsRead-info : (i : ℕ) → IsRead (get_conflict_info i)
unfolding get_conflict_info
IsRead-info i = search (read_rules, IsRead-conflict) depth 9

pub get_term_at_index_same : (i : ℕ) (l : LogManager) → (get_term_at_index i l).1 ≡ l
unfolding get_term_at_index
get_term_at_index_same i l = ground arith

pub get_entries_same : (i j : ℕ) (l : LogManager) → (get_entries i j l).1 ≡ l
unfolding get_entries
get_entries_same i j l = ground arith

pub get_conflict_info_same : (i : ℕ) (l : LogManager) → (get_conflict_info i l).1 ≡ l
get_conflict_info_same i l = (IsRead-info i).at l

pub ruleset within_rules = (
  Within-bind, Within-gets, Within-return, Within-throw, Within-if, Within-modify, Within-emit,
  Within-volatile, Within-snapshots, Within-log_read, Within-read, Within-config_read,
  get_current_term_same, voter_same, quorum_size_same, get_voters_same, get_all_peers_same,
  get_last_index_same, get_last_term_same, get_entry_same, matches_prev_log_same,
  get_conflict_info_same, get_term_at_index_same, get_entries_same, refl,
)
