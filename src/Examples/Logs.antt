-- ===== src/Examples/Logs.antt =====
-- Logs of LogManager.ts and sequences of LogEntry.ts on which their theorems apply.
use compaction.Prelude.{◌⊎◌, ◌⊎◌, ◌+◌, ℕ, ◌≡◌, refl, List, [], ◌∷◌, arith}
use compaction.Prelude.Exec.{type_error, err, ok}
use compaction.Examples.{
  none, some, LogEntryType, blank_entry, opened_log, opened_log-IsLog, short_log,
  short_log-IsManaged,
}
use compaction.Log.{validate_log_entry, entries_equal, LogEntry, validate_log_sequence}
use compaction.Log.Validation.{IsSequence, validate_log_sequence-IsSequence, entries_equal_self}
use compaction.Log.Manager.{
  validate_all, contiguous_from, LogManager, initialize, new, append_entries,
}
use compaction.Log.Manager.Invariant.{IsManaged}
use compaction.Log.Manager.Reconcile.{append_entries_from}
use compaction.Log.Manager.Reconcile.Matching.{IsReconciled, append_entries_from-IsReconciled}
use compaction.Log.Manager.Queries.{get_conflict_info, matches_prev_log}
use compaction.Log.Manager.Effects.{entry_at}
use compaction.Log.Manager.Queries.Answers.{
  is_term, known_term, IsRunStart, matches_prev_log_lem, conflict_hint,
}
use compaction.Log.Manager.Runs.{run, run-IsManaged, append_one, take_over, delete, discard}

-- The leader's log has term 2 at index 2, where the follower's has term 1.
abbrev newer_entries : List LogEntry
newer_entries = blank_entry 2 2 ∷ blank_entry 3 2 ∷ []

append_entries_from-IsReconciled_example :
    (l' : LogManager) × (append_entries_from 1 newer_entries short_log ≡ (ok l'.last_index, l'))
    × IsReconciled 1 newer_entries short_log l'
unfolding append_entries initialize validate_all validate_log_entry contiguous_from
append_entries_from-IsReconciled_example =
    append_entries_from-IsReconciled 1 newer_entries short_log short_log-IsManaged
      (refl, (refl, tt)) refl (omega arith) (omega arith)

run-IsManaged_example : IsManaged (
    run
      (initialize (new opened_log)).1
      (append_one (blank_entry 1 1) ∷ take_over 1 newer_entries ∷ delete 3 ∷ discard 1 1 ∷ []))
run-IsManaged_example =
    run-IsManaged
      (append_one (blank_entry 1 1) ∷ take_over 1 newer_entries ∷ delete 3 ∷ discard 1 1 ∷ [])
      opened_log opened_log-IsLog refl

matches_prev_log_lem_example :
    matches_prev_log 2 1 short_log ≡ (ok (is_term (known_term short_log 2) 1), short_log)
matches_prev_log_lem_example = matches_prev_log_lem 2 1 short_log short_log-IsManaged

conflict_hint_example :
    ((entry_at short_log 2 ≡ none)
      × (get_conflict_info 2 short_log ≡ (
        ok (record { conflict_index = short_log.last_index + 1; conflict_term = 0 }),
        short_log,
      )))
    ⊎ ((x : LogEntry) × (c : ℕ) × (entry_at short_log 2 ≡ some x)
        × (get_conflict_info 2 short_log
            ≡ (ok (record { conflict_index = c; conflict_term = x.term }), short_log))
        × IsRunStart short_log 2 x.term c)
conflict_hint_example = conflict_hint 2 short_log short_log-IsManaged

validate_log_sequence-IsSequence_example : IsSequence newer_entries
validate_log_sequence-IsSequence_example =
    validate_log_sequence-IsSequence newer_entries
      (unfold validate_log_sequence validate_log_entry in refl)

abbrev dropped : LogEntry
dropped = record (blank_entry 3 2) {
  type = LogEntryType.droplog;
  start_idx = some 1;
  final_idx = some 2;
}

entries_equal_self_example : entries_equal dropped dropped ≡ err type_error
entries_equal_self_example = entries_equal_self dropped (unfold validate_log_entry in refl)
