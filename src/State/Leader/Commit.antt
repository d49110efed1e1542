-- ===== src/State/Leader/Commit.antt =====
-- `calculateCommitIndex` of LeaderState.ts and the indices that a majority has.
use native.Mathlib.Nat.{le_refl, le_trans}
use compaction.Prelude.{
  ◌+◌, ◌*◌, ◌*◌, length, Option-cases, ◌∙◌, ap, ap, ℕ, ◌≤◌, ◌<◌, Option, none, some, Bool, true,
  false, ◌&&◌, ◌≡◌, refl, arith, ltb, leb, if◌then◌else◌, ◌==◌, ◌⊎◌, inl, inr, List, [], ◌∷◌,
  filter, All, Bool-cases,
}
use compaction.Prelude.Exec.{ok}
use compaction.Storage.Meta.{NodeId}
use compaction.Log.Manager.{LogManager}
use compaction.Log.Manager.Invariant.{IsManaged}
use compaction.Log.Manager.Queries.Answers.{known_term, get_term_at_index_lem}
use compaction.State.Leader.{
  LeaderState, Indices, majority_count, match_values, count_ge, is_positive, first_committed,
  calculate_commit_index, count_replicated,
}
use compaction.State.Leader.Sorting.{
  has, to_set, sort_desc, IsDescending, has-to_set, has-sort_desc, has-filter,
  sort_desc-IsDescending,
}

abbrev is_term : Option ℕ → ℕ → Bool
is_term none t = false
is_term (some u) t = u == t

-- The test of one candidate, and the first candidate that passes.
abbrev qualifies : LogManager → ℕ → List ℕ → ℕ → ℕ → Bool
qualifies log current values majority i =
    is_term (known_term log i) current && leb majority (count_ge i values)

abbrev pick : (ℕ → Bool) → List ℕ → ℕ
pick p [] = 0
pick p (i ∷ is) = if p i then i else pick p is

first_committed_lem :
    (is : List ℕ) (current : ℕ) (values : List ℕ) (majority : ℕ) (log : LogManager)
    (s : LeaderState)
    → IsManaged log
    → first_committed is current values majority log s
      ≡ (ok (pick (qualifies log current values majority) is), s)
unfolding first_committed
first_committed_lem [] current values majority log s h = refl
first_committed_lem (i ∷ is) current values majority log s h =
    ground
      (arith, get_term_at_index_lem i log h, first_committed_lem is current values majority log s h)

pick_sound :
    (p : ℕ → Bool) (is : List ℕ)
    → (pick p is ≡ 0) ⊎ ((has is (pick p is) ≡ true) × (p (pick p is) ≡ true))
pick_sound p [] = inl refl
pick_sound p (i ∷ is) = elim (Bool-cases (p i)) [
  | inl passes ↦ inr (ground arith, rw passes passes)
  | inr fails ↦ rw fails (ground (arith, pick_sound p is))
]

le_of_has : (x : ℕ) (ys : List ℕ) (a : ℕ) → All (λ y. y ≤ x) ys → has ys a ≡ true → a ≤ x
le_of_has x [] a h m = cc
le_of_has x (y ∷ ys) a h m = ground (arith, le_of_has x ys a h.1)

pick_highest :
    (p : ℕ → Bool) (is : List ℕ) (a : ℕ)
    → IsDescending is
    → has is a ≡ true
    → p a ≡ true
    → a ≤ pick p is
pick_highest p [] a d m q = cc
pick_highest p (i ∷ is) a d m q =
    ground (arith, pick_highest p is a d.1, le_of_has i is a d.0, ap p)

count_ge-antitone : (i j : ℕ) (vs : List ℕ) → i ≤ j → count_ge j vs ≤ count_ge i vs
count_ge-antitone i j [] h = omega arith
count_ge-antitone i j (v ∷ vs) h = ground (arith, count_ge-antitone i j vs h)

-- The least of the values that are at least `i` has as many above it.
least_above :
    (i : ℕ) (vs : List ℕ)
    → 0 < count_ge i vs
    → (j : ℕ) × (has vs j ≡ true) × (i ≤ j) × (count_ge j vs ≡ count_ge i vs)
least_above i [] h = absurd (omega arith)
least_above i (v ∷ vs) h = elim (Bool-cases (leb i v)) [
  | inr below ↦
      let (j, m, le, same) = least_above i vs (ground arith) in (j, ground arith, le, ground arith)
  | inl above ↦ elim (Bool-cases (ltb 0 (count_ge i vs))) [
    | inr alone ↦ (v, ground (arith), ground arith, ground (arith, count_ge-antitone i v vs))
    | inl others ↦
        let (j, m, le, same) = least_above i vs (ground arith) in
        elim (Bool-cases (leb j v)) [
          | inl jv ↦ (j, ground arith, le, ground arith)
          | inr vj ↦ (
            v,
            ground arith,
            ground arith,
            ground (arith, count_ge-antitone i v vs, count_ge-antitone v j vs),
          )
        ]
  ]
]

count_replicated_lem :
    (i : ℕ) (m : Indices) (vs : List NodeId)
    → 0 < i
    → count_replicated i m vs ≡ count_ge i (match_values m vs)
count_replicated_lem i m [] h = refl
count_replicated_lem i m (v ∷ vs) h = ground (arith, count_replicated_lem i m vs h)

-- How many nodes hold the index: the leader, and the voters that have matched it.
abbrev pub holders : ℕ → List NodeId → LeaderState → ℕ
holders i voters s = 1 + count_replicated i s.match_index voters

-- An index of the leader's term that more than half of the voters and the leader hold.
abbrev pub IsCommittable : ℕ → LogManager → List NodeId → LeaderState → ℕ → Type 0
IsCommittable current log voters s i =
    (known_term log i ≡ some current) × (length voters + 1 < 2 * holders i voters s)

module _ (current : ℕ) (log : LogManager) (voters : List NodeId) (s : LeaderState)
    (h : IsManaged log) where
  abbrev values : List ℕ
  values = log.last_index ∷ match_values s.match_index voters

  abbrev passes : ℕ → Bool
  passes = qualifies log current values (majority_count voters)

  abbrev candidates : List ℕ
  candidates = sort_desc (filter is_positive (to_set values))

  calculate_lem : calculate_commit_index current log voters s ≡ (ok (pick passes candidates), s)
  unfolding calculate_commit_index
  calculate_lem =
      ground (arith, first_committed_lem candidates current values (majority_count voters) log s h)

  known_term-le :
      (i t : ℕ) → known_term log i ≡ some t → (log.snapshot_index ≤ i) × (i ≤ log.last_index)
  known_term-le i t e = ground (arith, h.log.range i, h.log.bounded)

  replicated_lem :
      (i : ℕ)
      → 0 < i
      → i ≤ log.last_index
      → ltb (length voters + 1) (2 * holders i voters s)
        ≡ leb (majority_count voters) (count_ge i values)
  replicated_lem i lo hi = ground (arith, count_replicated_lem i s.match_index voters lo)

  commit_sound :
      (pick passes candidates ≡ 0) ⊎ IsCommittable current log voters s (pick passes candidates)
  commit_sound =
      let r = pick passes candidates in
      elim (pick_sound passes candidates) [
        | inl z ↦ inl z
        | inr (m, q) ↦ elim (Bool-cases (ltb 0 r)) [
          | inr z ↦ inl (ground arith)
          | inl pos ↦
              let k : known_term log r ≡ some current = ground arith in
              inr (k, ground (arith, replicated_lem r (ground arith) (known_term-le r current k).1))
        ]
      ]

  commit_highest :
      (j : ℕ) → 0 < j → has values j ≡ true → passes j ≡ true → j ≤ pick passes candidates
  commit_highest j pos m q =
      pick_highest passes candidates j (sort_desc-IsDescending _)
        (has-sort_desc (filter is_positive (to_set values)) j
          ∙ has-filter is_positive (to_set values) j (ground arith) (has-to_set values j ∙ m))
        q

-- Terms never fall along the log, and none is past the current term.
pub record IsTermOrdered (log : LogManager) (current : ℕ) : Type 0 where
  pub ordered :
      (i j t u : ℕ) → i ≤ j → known_term log i ≡ some t → known_term log j ≡ some u → t ≤ u
  pub capped : (i t : ℕ) → known_term log i ≡ some t → t ≤ current

module _ (current : ℕ) (log : LogManager) (voters : List NodeId) (s : LeaderState)
    (h : IsManaged log) where
  term_between :
      (i j : ℕ)
      → IsTermOrdered log current
      → known_term log i ≡ some current
      → i ≤ j
      → j ≤ log.last_index
      → known_term log j ≡ some current
  term_between i j o e le hi =
      let (lo, _) = known_term-le current log voters s h i current e in
      elim (Option-cases (known_term log j)) [
        | inl gone ↦ absurd (ground (arith, h.log.range j))
        | inr (u, found) ↦
            let same : u ≡ current =
              omega (arith, o.ordered i j current u le e found, o.capped j u found) in
            found ∙ ap some same
      ]

  commit_maximal :
      IsTermOrdered log current
      → All (λ v. v ≤ log.last_index) (match_values s.match_index voters)
      → (i : ℕ) → 0 < i
      → IsCommittable current log voters s i
      → i ≤ pick (passes current log voters s h) (candidates current log voters s h)
  commit_maximal o capped i pos (e, m) =
      let vs = values current log voters s h in
      let (lo, hi) = known_term-le current log voters s h i current e in
      let enough : leb (majority_count voters) (count_ge i vs) ≡ true =
        ground (arith, replicated_lem current log voters s h i pos hi) in
      let (j, found, le, same) = least_above i vs (ground arith) in
      let within = le_of_has log.last_index vs j (le_refl log.last_index, capped) found in
      let k = term_between i j o e le within in
      le_trans le (commit_highest current log voters s h j (omega arith) found (ground arith))

  -- Over a well-formed log whose terms never fall and are at most the current one, and with matched
  -- indices inside the log, the calculation returns 0 or an index of the current term that is
  -- replicated on a majority, changes nothing, and no index of the current term on a majority is
  -- higher.
  pub calculate_commit_index-highest :
      IsTermOrdered log current
      → All (λ v. v ≤ log.last_index) (match_values s.match_index voters)
      → (r : ℕ) × (calculate_commit_index current log voters s ≡ (ok r, s))
        × ((r ≡ 0) ⊎ IsCommittable current log voters s r)
        × ((i : ℕ) → 0 < i → IsCommittable current log voters s i → i ≤ r)
  calculate_commit_index-highest o capped = (
    pick (passes current log voters s h) (candidates current log voters s h),
    calculate_lem current log voters s h,
    commit_sound current log voters s h,
    commit_maximal o capped,
  )
