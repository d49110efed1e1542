-- ===== src/Examples/States.antt =====
-- States of the state components on which their theorems apply.
use compaction.Prelude.{ℕ, ◌≤◌, ◌<◌, ◌≡◌, ◌⊎◌, refl, [], ◌∷◌, some, true, All, includes, arith}
use compaction.Prelude.Exec.{ok}
use compaction.Examples.{append_entries, trio, opened_meta, short_log, short_log-IsManaged}
use compaction.Storage.Meta.{NodeId}
use compaction.Config.{is_voter, get_quorum_size}
use compaction.Config.Quorum.{quorum_overlap}
use compaction.Log.Manager.{append_entries, initialize, contiguous_from, validate_all}
use compaction.Log.{validate_log_entry}
use compaction.Storage.Log.{put_all}
use compaction.State.Persistent
use compaction.State.Persistent.{PersistentState, PersistentStateSnapshot, view}
use compaction.State.Persistent.Durability.{
  IsDurable, IsStored, initialize-IsDurable, update-IsStored, restart_after_run, update, set_term,
  reset,
}
use compaction.State.Persistent.Durability as Durability
use compaction.State.Volatile.{get_pending_applications_count, VolatileState}
use compaction.State.Volatile.Order as Volatile
use compaction.State.Volatile.Order.{
  IsOrdered, apply-IsOrdered, apply_all, apply_all-pending, commit_grows, commit_next, commit,
  restart,
}
use compaction.State.Leader.{
  fill, match_values, LeaderState, new, value, calculate_commit_index, update_match_index,
}
use compaction.State.Leader.Tracking as Tracking
use compaction.State.Leader.Tracking.{
  IsTracking, new-IsTracking, apply-IsTracking, match_index_grows, update_match, restarts,
  update_match-IsTracking,
}
use compaction.State.Leader.Commit.{IsCommittable, IsTermOrdered, calculate_commit_index-highest}

quorum_overlap_example :
    (v : NodeId) × (includes ("a" ∷ "b" ∷ []) v ≡ true) × (includes ("b" ∷ "c" ∷ []) v ≡ true)
unfolding is_voter get_quorum_size
quorum_overlap_example =
    quorum_overlap trio ("a" ∷ "b" ∷ []) ("b" ∷ "c" ∷ []) (refl, (refl, tt)) (refl, (refl, tt))
      (refl, (refl, tt)) (refl, (refl, tt)) (omega arith) (omega arith)

-- The node voted for "a" in term 1, and a vote in a term that it has passed is refused.
abbrev restarted : PersistentState
restarted = (Persistent.initialize (Persistent.new opened_meta)).1

update-IsStored_example : IsStored 1 (some "a") restarted
unfolding Persistent.initialize
update-IsStored_example =
    update-IsStored 1 (some "a") restarted (initialize-IsDurable opened_meta refl) refl

restart_after_run_example :
    (Persistent.initialize (
      Persistent.new
        (Durability.run restarted (update 1 (some "a") ∷ set_term 0 ∷ set_term 2 ∷ [])).meta)).0
    ≡ ok (view (Durability.run restarted (update 1 (some "a") ∷ set_term 0 ∷ set_term 2 ∷ [])))
restart_after_run_example =
    restart_after_run opened_meta (update 1 (some "a") ∷ set_term 0 ∷ set_term 2 ∷ []) refl

abbrev progress : VolatileState
progress = record { commit_index = 3; last_applied = 1 }

apply-IsOrdered_example : IsOrdered (Volatile.apply progress commit_next)
apply-IsOrdered_example =
    apply-IsOrdered progress commit_next (record { applied_committed = omega arith })

commit_grows_example :
    (commit 5 ≡ restart) ⊎ (3 ≤ (Volatile.apply progress (commit 5)).commit_index)
commit_grows_example = commit_grows progress (commit 5)

apply_all-pending_example : apply_all 2 progress ≡ record { commit_index = 3; last_applied = 3 }
apply_all-pending_example =
    apply_all-pending 2 progress (unfold get_pending_applications_count in refl)
      (record { applied_committed = omega arith })

-- A leader that knows of "b" that it holds both entries.
abbrev fresh : LeaderState
fresh = new ("b" ∷ "c" ∷ []) 2

apply-IsTracking_example : IsTracking (Tracking.apply fresh (update_match "b" 2))
apply-IsTracking_example =
    apply-IsTracking fresh (update_match "b" 2) (new-IsTracking ("b" ∷ "c" ∷ []) 2)

match_index_grows_example :
    ((restarts (update_match "b" 2) ≡ true)
      × (value ((Tracking.apply fresh (update_match "b" 2)).match_index "b") ≡ 0))
    ⊎ (value (fresh.match_index "b")
        ≤ value ((Tracking.apply fresh (update_match "b" 2)).match_index "b"))
match_index_grows_example =
    match_index_grows fresh (update_match "b" 2) "b" (new-IsTracking ("b" ∷ "c" ∷ []) 2)

abbrev matched : LeaderState
matched = (update_match_index "b" 2 fresh).1

short_log-IsTermOrdered : IsTermOrdered short_log 1
unfolding append_entries initialize contiguous_from validate_all validate_log_entry put_all
short_log-IsTermOrdered = record {
  ordered = λ i j t u h p q. ground arith;
  capped = λ i t p. ground arith;
}

matched_within :
    All (λ v. v ≤ short_log.last_index) (match_values matched.match_index ("b" ∷ "c" ∷ []))
unfolding append_entries initialize contiguous_from validate_all validate_log_entry
    update_match_index new fill
matched_within = (omega arith, (omega arith, tt))

calculate_commit_index-highest_example :
    (r : ℕ) × (calculate_commit_index 1 short_log ("b" ∷ "c" ∷ []) matched ≡ (ok r, matched))
    × ((r ≡ 0) ⊎ IsCommittable 1 short_log ("b" ∷ "c" ∷ []) matched r)
    × ((i : ℕ) → 0 < i → IsCommittable 1 short_log ("b" ∷ "c" ∷ []) matched i → i ≤ r)
calculate_commit_index-highest_example =
    calculate_commit_index-highest 1 short_log ("b" ∷ "c" ∷ []) matched short_log-IsManaged
      short_log-IsTermOrdered matched_within
