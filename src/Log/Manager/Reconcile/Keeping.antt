-- ===== src/Log/Manager/Reconcile/Keeping.antt =====
-- `appendEntriesFrom` of LogManager.ts and the well-formedness of the log.
use compaction.Prelude.{ℕ, List, [], ◌∷◌, Option, none, some, ◌≡◌, subst, sym, arith}
use compaction.Prelude.Exec.{Result, Exec, ok, err, resume}
use compaction.Log.{LogEntry}
use compaction.Log.Manager.{LogManager}
use compaction.Log.Manager.Invariant.{IsManaged, append_entries-IsManaged, delete-IsManaged}
use compaction.Log.Manager.Reconcile.{append_entries_from, reconcile, truncate_at, append_rest}
use compaction.Log.Manager.Reconcile.Search.{find_conflict_lem, conflict}
use compaction.Log.Manager.Reconcile.Matching.{append_entries_from_lem}
use compaction.Log.Manager.Effects.{entry_at}

rest-IsManaged :
    (es : List LogEntry) (l : LogManager) → IsManaged l → IsManaged (append_rest es l).1
rest-IsManaged [] l h = h
rest-IsManaged (e ∷ es) l h = append_entries-IsManaged (e ∷ es) l h

truncate-IsManaged : (o : Option ℕ) (l : LogManager) → IsManaged l → IsManaged (truncate_at o l).1
truncate-IsManaged none l h = h
truncate-IsManaged (some i) l h = delete-IsManaged i l h

after-IsManaged :
    {A B : Type 0} (x : Result A × LogManager) (f : A → Exec LogManager B)
    → IsManaged x.1
    → ((a : A) (l : LogManager) → IsManaged l → IsManaged (f a l).1)
    → IsManaged (resume f x).1
after-IsManaged (ok a, l) f h k = k a l h
after-IsManaged (err e, l) f h k = h

reconcile_keeps : (es : List LogEntry) (l : LogManager) → IsManaged l → IsManaged (reconcile es l).1
unfolding reconcile
reconcile_keeps es l h = rw (find_conflict_lem es l h) (
    after-IsManaged (truncate_at (conflict (entry_at l) es) l) _ (truncate-IsManaged _ l h)
      (λ u m k. rest-IsManaged _ m k))

taken_nothing : (prev : ℕ) (l : LogManager) → (append_entries_from prev [] l).1 ≡ l
unfolding append_entries_from
taken_nothing prev l = ground arith

pub reconcile-IsManaged :
    (prev : ℕ) (es : List LogEntry) (l : LogManager)
    → IsManaged l
    → IsManaged (append_entries_from prev es l).1
reconcile-IsManaged prev [] l h = subst IsManaged (sym (taken_nothing prev l)) h
reconcile-IsManaged prev (e ∷ es) l h =
    subst (λ x. IsManaged x.1) (sym (append_entries_from_lem prev e es l h))
      (reconcile_keeps (e ∷ es) l h)
