-- ===== src/Log/Manager/Queries/Answers.antt =====
-- What the reading methods of LogManager.ts answer on a well-formed log.
use compaction.Prelude.{
  Option-cases, Bool-cases, ℕ, zero, suc, ◌+◌, ◌-◌, ◌≤◌, ◌<◌, Option, none, some, Bool, true, false,
  ◌≡◌, refl, arith, ltb, leb, if◌then◌else◌, ◌==◌, ◌⊎◌, inl, inr,
}
use compaction.Prelude.Exec.{ok}
use compaction.Log.{LogEntry}
use compaction.Log.Manager.{LogManager}
use compaction.Log.Manager.Invariant.{IsManaged}
use compaction.Log.Manager.Effects.{entry_at}
use compaction.Log.Manager.Queries.{
  get_entry, get_term_at_index, entry_term, has_term, matches_prev_log, get_conflict_info,
  first_of_run, get_last_entry,
}

-- The term of an index that the log knows: an entry's or the boundary's.
abbrev pub known_term : LogManager → ℕ → Option ℕ
known_term l i = if i == l.snapshot_index then some l.snapshot_term else entry_term (entry_at l i)

pub get_entry_lem : (i : ℕ) (l : LogManager) → IsManaged l → get_entry i l ≡ (ok (entry_at l i), l)
unfolding get_entry
get_entry_lem i l h = ground (arith, h.log.range i)

pub get_term_at_index_lem :
    (i : ℕ) (l : LogManager) → IsManaged l → get_term_at_index i l ≡ (ok (known_term l i), l)
unfolding get_term_at_index
get_term_at_index_lem i l h = ground (arith, h.log.range i)

abbrev pub is_term : Option ℕ → ℕ → Bool
is_term none t = false
is_term (some u) t = u == t

-- On a well-formed log, the check of the previous entry succeeds without changing anything, and
-- accepts index 0 with term 0 whatever the log holds, and any other index with exactly the term
-- that the log knows for it, from an entry or from the snapshot boundary.
pub matches_prev_log_lem :
    (i t : ℕ) (l : LogManager)
    → IsManaged l
    → matches_prev_log i t l ≡ (ok (if i == 0 then t == 0 else is_term (known_term l i) t), l)
unfolding matches_prev_log
matches_prev_log_lem i t l h = ground (arith, h.log.range i)

get_last_entry_lem :
    (l : LogManager) → IsManaged l → get_last_entry l ≡ (ok (entry_at l l.last_index), l)
unfolding get_last_entry
get_last_entry_lem l h = ground (arith, get_entry_lem l.last_index l h, h.log.range l.last_index)

-- What a follower tells its leader about a mismatch at `prev`: `c` is the first index of a run of
-- entries of term `t` that ends at `prev`, as far as the log is retained.
pub record IsRunStart (l : LogManager) (prev t c : ℕ) : Type 0 where
  pub below : c ≤ prev
  pub retained : l.snapshot_index < c
  pub same : (i : ℕ) → c ≤ i → i ≤ prev → has_term (entry_at l i) t ≡ true
  pub first : (c ≡ l.snapshot_index + 1) ⊎ (has_term (entry_at l (c - 1)) t ≡ false)

first_of_run-IsRunStart :
    (i t : ℕ) (l : LogManager)
    → IsManaged l
    → l.snapshot_index < i
    → has_term (entry_at l i) t ≡ true
    → (c : ℕ) × (first_of_run i t l ≡ (ok c, l)) × IsRunStart l i t c
unfolding first_of_run
first_of_run-IsRunStart zero t l h lo here = absurd (omega arith)
first_of_run-IsRunStart (suc i) t l h lo here =
    elim (Bool-cases (ltb (l.snapshot_index + 1) (suc i))) [
      | inr bottom ↦ (
        suc i,
        rw bottom refl,
        record {
          below = omega arith;
          retained = lo;
          same = λ j p q. let e : j ≡ suc i = omega arith in rw e here;
          first = inl (ground arith);
        },
      )
      | inl inside ↦ elim (Bool-cases (has_term (entry_at l i) t)) [
        | inl more ↦
            let (c, run, start) = first_of_run-IsRunStart i t l h (ground arith) more in
            (
              c,
              rw (inside, get_entry_lem i l h, more) run,
              record {
                below = ground (arith, start.below);
                retained = start.retained;
                same = λ j p q. elim (Bool-cases (leb j i)) [
                  | inl le ↦ start.same j p (ground arith)
                  | inr gt ↦ let e : j ≡ suc i = ground arith in rw e here
                ];
                first = start.first;
              },
            )
        | inr differs ↦ (
          suc i,
          rw (inside, get_entry_lem i l h, differs) refl,
          record {
            below = omega arith;
            retained = lo;
            same = λ j p q. let e : j ≡ suc i = omega arith in rw e here;
            first = inr (let e : suc i - 1 ≡ i = omega arith in rw e differs);
          },
        )
      ]
    ]

conflict_beyond :
    (prev : ℕ) (l : LogManager)
    → IsManaged l
    → entry_at l prev ≡ none
    → get_conflict_info prev l
      ≡ (ok (record { conflict_index = l.last_index + 1; conflict_term = 0 }), l)
unfolding get_conflict_info
conflict_beyond prev l h e = ground (arith, get_entry_lem prev l h)

conflict_within :
    (prev : ℕ) (x : LogEntry) (l : LogManager)
    → IsManaged l
    → entry_at l prev ≡ some x
    → (c : ℕ) × (get_conflict_info prev l
        ≡ (ok (record { conflict_index = c; conflict_term = x.term }), l))
      × IsRunStart l prev x.term c
unfolding get_conflict_info
conflict_within prev x l h e =
    let (c, run, start) =
      first_of_run-IsRunStart prev x.term l h (ground (arith, h.log.range prev))
        (rw e (ground arith)) in
    (c, ground (arith, get_entry_lem prev l h, run, h.log.range prev), start)

-- On a well-formed log, the hint for a previous index without an entry is the index after the tail
-- with term 0, and for one with an entry it is the entry's term with the first index of the run of
-- entries of that term that ends there, as far as the log is retained.
pub conflict_hint :
    (prev : ℕ) (l : LogManager)
    → IsManaged l
    → ((entry_at l prev ≡ none)
        × (get_conflict_info prev l
            ≡ (ok (record { conflict_index = l.last_index + 1; conflict_term = 0 }), l)))
      ⊎ ((x : LogEntry) × (c : ℕ) × (entry_at l prev ≡ some x)
          × (get_conflict_info prev l
              ≡ (ok (record { conflict_index = c; conflict_term = x.term }), l))
          × IsRunStart l prev x.term c)
conflict_hint prev l h = elim (Option-cases (entry_at l prev)) [
  | inl e ↦ inl (e, conflict_beyond prev l h e)
  | inr (x, e) ↦ let (c, run, start) = conflict_within prev x l h e in inr (x, c, e, run, start)
]
