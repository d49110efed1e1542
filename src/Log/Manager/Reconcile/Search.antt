-- ===== src/Log/Manager/Reconcile/Search.antt =====
-- The search of `appendEntriesFrom` of LogManager.ts for a conflict, and which entries it leaves to append.
use compaction.Prelude.{
  ℕ, zero, suc, ◌+◌, ◌-◌, ◌≤◌, ◌<◌, Option, none, some, Bool, true, not, ◌≡◌, refl, arith, ltb, leb,
  if◌then◌else◌, ◌==◌, is_some, inl, inr, List, [], ◌∷◌, length, get_elem?, filter, Bool-cases,
}
use compaction.Prelude.Exec.{ok}
use compaction.Log.{LogEntry}
use compaction.Storage.Log.{Entries}
use compaction.Storage.Log.Invariant.{Contiguous}
use compaction.Log.Manager.{LogManager, validate_all}
use compaction.Log.Manager.Invariant.{IsManaged}
use compaction.Log.Manager.Queries.{has_term}
use compaction.Log.Manager.Queries.Answers.{get_entry_lem}
use compaction.Log.Manager.Effects.{entry_at}
use compaction.Log.Manager.Reconcile.{find_conflict}

-- The first index at which the log holds an entry of another term than the leader's.
abbrev pub conflict : Entries → List LogEntry → Option ℕ
conflict m [] = none
conflict m (e ∷ es) = elim (m e.index) [
  | none ↦ none
  | some x ↦ if not (x.term == e.term) then some e.index else conflict m es
]

pub find_conflict_lem :
    (es : List LogEntry) (l : LogManager)
    → IsManaged l
    → find_conflict es l ≡ (ok (conflict (entry_at l) es), l)
unfolding find_conflict
find_conflict_lem [] l h = refl
find_conflict_lem (e ∷ es) l h = ground (arith, get_entry_lem e.index l h, find_conflict_lem es l h)

abbrev pub above : ℕ → LogEntry → Bool
above t e = ltb t e.index

filter-above_all :
    (t k : ℕ) (es : List LogEntry) → Contiguous k es → t < k → filter (above t) es ≡ es
filter-above_all t k [] c h = refl
filter-above_all t k (e ∷ es) c h = ground (arith, filter-above_all t (k + 1) es c.1)

filter-above_none :
    (t : ℕ) (e : LogEntry) (es : List LogEntry)
    → e.index ≤ t
    → filter (above t) (e ∷ es) ≡ filter (above t) es
filter-above_none t e es h = ground arith

pub filter-Contiguous :
    (t k : ℕ) (es : List LogEntry)
    → Contiguous k es
    → k ≤ t + 1
    → Contiguous (t + 1) (filter (above t) es)
filter-Contiguous t k [] c h = tt
filter-Contiguous t k (e ∷ es) c h = elim (Bool-cases (leb k t)) [
  | inl le ↦
      rw (filter-above_none t e es (ground arith))
        (filter-Contiguous t (k + 1) es c.1 (ground arith))
  | inr gt ↦
      let q : k ≡ t + 1 = ground arith in
      rw (filter-above_all t k (e ∷ es) c (omega arith)) (rw (← q) c)
]

pub get_elem?-filter :
    (t k : ℕ) (es : List LogEntry) (j : ℕ)
    → Contiguous k es
    → k ≤ t + 1
    → t < k + j
    → get_elem? (filter (above t) es) (k + j - (t + 1)) ≡ get_elem? es j
get_elem?-filter t k [] j c h lt = refl
get_elem?-filter t k (e ∷ es) zero c h lt =
    rw (filter-above_all t k (e ∷ es) c (omega arith))
      (let p : k + 0 - (t + 1) ≡ 0 = omega arith in rw p refl)
get_elem?-filter t k (e ∷ es) (suc j) c h lt = elim (Bool-cases (leb k t)) [
  | inl le ↦
      let q : k + suc j ≡ k + 1 + j = omega arith in
      rw (filter-above_none t e es (ground arith))
        (rw q (get_elem?-filter t (k + 1) es j c.1 (ground arith) (omega arith)))
  | inr gt ↦
      let p : k + suc j - (t + 1) ≡ suc j = ground arith in
      rw (filter-above_all t k (e ∷ es) c (ground arith)) (rw p refl)
]

pub validate_all-filter :
    (t : ℕ) (es : List LogEntry)
    → validate_all es ≡ ok tt
    → validate_all (filter (above t) es) ≡ ok tt
unfolding validate_all
validate_all-filter t [] h = refl
validate_all-filter t (e ∷ es) h = ground (arith, validate_all-filter t es)

-- Up to the first conflict, and up to the end of the log, the terms agree.
pub agree_below :
    (k c : ℕ) (m : Entries) (es : List LogEntry) (j : ℕ) (e : LogEntry)
    → Contiguous k es
    → conflict m es ≡ some c
    → get_elem? es j ≡ some e
    → k + j < c
    → has_term (m (k + j)) e.term ≡ true
agree_below k c m [] j e ct h g lt = cc
agree_below k c m (x ∷ es) zero e ct h g lt = let p : k + 0 ≡ k = omega arith in rw p (ground arith)
agree_below k c m (x ∷ es) (suc j) e ct h g lt =
    let p : k + suc j ≡ k + 1 + j = omega arith in
    rw p (agree_below (k + 1) c m es j e ct.1 (ground arith) g (omega arith))

pub agree_throughout :
    (k t : ℕ) (m : Entries) (es : List LogEntry) (j : ℕ) (e : LogEntry)
    → Contiguous k es
    → ((i : ℕ) → k ≤ i → i ≤ t → is_some (m i) ≡ true)
    → conflict m es ≡ none
    → get_elem? es j ≡ some e
    → k + j ≤ t
    → has_term (m (k + j)) e.term ≡ true
agree_throughout k t m [] j e ct full h g lt = cc
agree_throughout k t m (x ∷ es) zero e ct full h g lt =
    let p : k + 0 ≡ k = omega arith in rw p (ground (arith, full k))
agree_throughout k t m (x ∷ es) (suc j) e ct full h g lt =
    let p : k + suc j ≡ k + 1 + j = omega arith in
    rw p (
      agree_throughout (k + 1) t m es j e ct.1 (λ i a b. full i (omega arith) b)
        (ground (arith, full k)) g (omega arith))

-- A conflict lies among the given entries, and inside the log.
pub conflict_place :
    (k c : ℕ) (m : Entries) (es : List LogEntry)
    → Contiguous k es
    → conflict m es ≡ some c
    → (k ≤ c) × (c < k + length es) × (is_some (m c) ≡ true)
conflict_place k c m [] ct h = cc
conflict_place k c m (x ∷ es) ct h = ground (arith, conflict_place (k + 1) c m es ct.1)

pub length-filter :
    (t k : ℕ) (es : List LogEntry)
    → Contiguous k es
    → k ≤ t + 1
    → k + length es ≤ t + 1 + length (filter (above t) es)
length-filter t k [] c h = omega arith
length-filter t k (e ∷ es) c h = elim (Bool-cases (leb k t)) [
  | inl le ↦
      rw (filter-above_none t e es (ground arith)) (ground (arith, length-filter t (k + 1) es c.1))
  | inr gt ↦ rw (filter-above_all t k (e ∷ es) c (ground arith)) (ground arith)
]
