-- ===== src/Log/Manager/Reconcile/Matching.antt =====
-- `appendEntriesFrom` of LogManager.ts: the log after it, against the leader's entries.
use compaction.Log.Manager.Reconcile.Search.{
  conflict, find_conflict_lem, above, filter-Contiguous, get_elem?-filter, validate_all-filter,
  agree_below, agree_throughout, conflict_place, length-filter,
}
use compaction.Prelude.{
  ◌∙◌, ℕ, ◌+◌, ◌-◌, ◌≤◌, ◌<◌, Option, none, some, true, ◌≡◌, refl, arith, leb, inl, inr, List, [],
  ◌∷◌, length, get_elem?, filter, Bool-cases, Option-cases,
}
use compaction.Prelude.Exec.{ok}
use compaction.Log.{LogEntry}
use compaction.Storage.Log.Invariant.{Contiguous}
use compaction.Log.Manager.{delete_entries_from, append_entries, LogManager, validate_all}
use compaction.Log.Manager.Invariant.{IsManaged}
use compaction.Log.Manager.Queries.{has_term}
use compaction.Log.Manager.Effects.{entry_at, IsExtended, delete_done, append_done}
use compaction.Log.Manager.Reconcile.{append_rest, reconcile, truncate_at, append_entries_from}

-- What a follower's log is after it took the entries that follow index `prev`.
pub record IsReconciled (prev : ℕ) (es : List LogEntry) (l l' : LogManager) : Type 0 where
  pub managed : IsManaged l'
  pub covers : prev + length es ≤ l'.last_index
  pub agrees :
      (j : ℕ) (e : LogEntry)
      → get_elem? es j ≡ some e
      → has_term (entry_at l' (prev + 1 + j)) e.term ≡ true
  pub prefix : (i : ℕ) → i ≤ prev → entry_at l' i ≡ entry_at l i
  pub unharmed :
      conflict (entry_at l) es ≡ none → (i : ℕ) → i ≤ l.last_index → entry_at l' i ≡ entry_at l i

append_rest_lem :
    (es : List LogEntry) (l : LogManager) → IsManaged l → append_rest es l ≡ append_entries es l
unfolding append_entries
append_rest_lem [] l h = ground arith
append_rest_lem (e ∷ es) l h = refl

-- The given entries agree with the log up to its end.
abbrev AgreesSoFar : ℕ → List LogEntry → LogManager → Type 0
AgreesSoFar prev es l =
    (j : ℕ) (e : LogEntry)
    → get_elem? es j ≡ some e
    → prev + 1 + j ≤ l.last_index
    → has_term (entry_at l (prev + 1 + j)) e.term ≡ true

-- The last step, on a log with which the entries agree as far as it goes.
record IsFinished (prev : ℕ) (es : List LogEntry) (l l' : LogManager) : Type 0 where
  managed : IsManaged l'
  covers : prev + length es ≤ l'.last_index
  agrees :
      (j : ℕ) (e : LogEntry)
      → get_elem? es j ≡ some e
      → has_term (entry_at l' (prev + 1 + j)) e.term ≡ true
  kept : (i : ℕ) → i ≤ l.last_index → entry_at l' i ≡ entry_at l i

agrees_new :
    (prev : ℕ) (es : List LogEntry) (l l' : LogManager)
    → Contiguous (prev + 1) es
    → prev ≤ l.last_index
    → IsExtended (filter (above l.last_index) es) l l'
    → (j : ℕ) (e : LogEntry) → get_elem? es j ≡ some e
    → l.last_index < prev + 1 + j
    → has_term (entry_at l' (prev + 1 + j)) e.term ≡ true
agrees_new prev es l l' c lo x j e g gt =
    let n = prev + 1 + j - (l.last_index + 1) in
    let q : l.last_index + 1 + n ≡ prev + 1 + j = omega arith in
    let got = x.added n e (get_elem?-filter l.last_index (prev + 1) es j c (omega arith) gt ∙ g) in
    rw (← q) (rw got (ground arith))

finish :
    (prev : ℕ) (es : List LogEntry) (l : LogManager)
    → IsManaged l
    → Contiguous (prev + 1) es
    → validate_all es ≡ ok tt
    → prev ≤ l.last_index
    → AgreesSoFar prev es l
    → (l' : LogManager) × (append_rest (filter (above l.last_index) es) l ≡ (ok l'.last_index, l'))
      × IsFinished prev es l l'
finish prev es l h c v lo so_far =
    let app = filter (above l.last_index) es in
    let (run, eff) =
      append_done app l h (filter-Contiguous l.last_index (prev + 1) es c (omega arith))
        (validate_all-filter l.last_index es v) in
    let l' = (append_entries app l).1 in
    (
      l',
      append_rest_lem app l h ∙ run,
      record {
        managed = eff.managed;
        covers =
            omega (arith, eff.last_index, length-filter l.last_index (prev + 1) es c (omega arith));
        agrees = λ j e g. elim (Bool-cases (leb (prev + 1 + j) l.last_index)) [
          | inl le ↦ rw (eff.kept (prev + 1 + j) (ground arith)) (so_far j e g (ground arith))
          | inr gt ↦ agrees_new prev es l l' c lo eff j e g (ground arith)
        ];
        kept = eff.kept;
      },
    )

reconcile_lem :
    (es : List LogEntry) (l mid : LogManager) {o : Option ℕ}
    → IsManaged l
    → conflict (entry_at l) es ≡ o
    → truncate_at o l ≡ (ok tt, mid)
    → reconcile es l ≡ append_rest (filter (above mid.last_index) es) mid
unfolding reconcile
reconcile_lem es l mid h e cut = rw (find_conflict_lem es l h) (rw e (rw cut))

pub append_entries_from_lem :
    (prev : ℕ) (e : LogEntry) (es : List LogEntry) (l : LogManager)
    → IsManaged l
    → append_entries_from prev (e ∷ es) l ≡ reconcile (e ∷ es) l
append_entries_from_lem prev e es l h = unfold append_entries_from in ground arith

reconcile_agreeing :
    (prev : ℕ) (es : List LogEntry) (l : LogManager)
    → IsManaged l
    → Contiguous (prev + 1) es
    → validate_all es ≡ ok tt
    → l.snapshot_index ≤ prev
    → prev ≤ l.last_index
    → conflict (entry_at l) es ≡ none
    → (l' : LogManager) × (append_entries_from prev es l ≡ (ok l'.last_index, l'))
      × IsReconciled prev es l l'
reconcile_agreeing prev [] l h c v lo hi no_conflict = (
  l,
  unfold append_entries_from in ground arith,
  record {
    managed = h;
    covers = omega arith;
    agrees = λ j e g. cc;
    prefix = λ i p. refl;
    unharmed = λ n i p. refl;
  },
)
reconcile_agreeing prev (e ∷ es) l h c v lo hi no_conflict =
    let so_far : AgreesSoFar prev (e ∷ es) l = λ j x g p.
      agree_throughout (prev + 1) l.last_index (entry_at l) (e ∷ es) j x c
        (λ i a b. ground (arith, h.log.range i)) no_conflict g p in
    let (l', run, fin) = finish prev (e ∷ es) l h c v hi so_far in
    (
      l',
      append_entries_from_lem prev e es l h ∙ reconcile_lem (e ∷ es) l l h no_conflict refl ∙ run,
      record {
        managed = fin.managed;
        covers = fin.covers;
        agrees = fin.agrees;
        prefix = λ i p. fin.kept i (omega arith);
        unharmed = λ n i p. fin.kept i p;
      },
    )

reconcile_conflicting :
    (prev t : ℕ) (es : List LogEntry) (l : LogManager)
    → IsManaged l
    → Contiguous (prev + 1) es
    → validate_all es ≡ ok tt
    → l.snapshot_index ≤ prev
    → prev ≤ l.last_index
    → conflict (entry_at l) es ≡ some t
    → (l' : LogManager) × (append_entries_from prev es l ≡ (ok l'.last_index, l'))
      × IsReconciled prev es l l'
reconcile_conflicting prev t [] l h c v lo hi found = cc
reconcile_conflicting prev t (e ∷ es) l h c v lo hi found =
    let (from, to, inside) = conflict_place (prev + 1) t (entry_at l) (e ∷ es) c found in
    let (cut, eff) = delete_done t l h (omega arith) (ground (arith, h.log.range t)) in
    let mid = (delete_entries_from t l).1 in
    let so_far : AgreesSoFar prev (e ∷ es) mid = λ j x g p.
      rw (eff.kept (prev + 1 + j) (omega (arith, eff.last_index))) (
        agree_below (prev + 1) t (entry_at l) (e ∷ es) j x c found g
          (omega (arith, eff.last_index))) in
    let (l', run, fin) =
      finish prev (e ∷ es) mid eff.managed c v (omega (arith, eff.last_index)) so_far in
    (
      l',
      append_entries_from_lem prev e es l h ∙ reconcile_lem (e ∷ es) l mid h found cut ∙ run,
      record {
        managed = fin.managed;
        covers = fin.covers;
        agrees = fin.agrees;
        prefix = λ i p. fin.kept i (omega (arith, eff.last_index)) ∙ eff.kept i (omega arith);
        unharmed = λ n. cc;
      },
    )

-- On a well-formed log that reaches the previous index, and has not compacted past it, valid
-- entries at the next indices are taken over without an error: the log then reaches the last of
-- them and holds at each of their indices an entry of the same term, everything up to the previous
-- index is kept, and so is the whole log where no entry conflicts.
pub append_entries_from-IsReconciled :
    (prev : ℕ) (es : List LogEntry) (l : LogManager)
    → IsManaged l
    → Contiguous (prev + 1) es
    → validate_all es ≡ ok tt
    → l.snapshot_index ≤ prev
    → prev ≤ l.last_index
    → (l' : LogManager) × (append_entries_from prev es l ≡ (ok l'.last_index, l'))
      × IsReconciled prev es l l'
append_entries_from-IsReconciled prev es l h c v lo hi =
    elim (Option-cases (conflict (entry_at l) es)) [
      | inl agreeing ↦ reconcile_agreeing prev es l h c v lo hi agreeing
      | inr (t, found) ↦ reconcile_conflicting prev t es l h c v lo hi found
    ]
