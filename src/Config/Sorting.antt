-- ===== src/Config/Sorting.antt =====
-- Sorting identifiers, as `sort` of JavaScript does in ClusterConfig.ts. The order that it puts
-- strings in is a parameter.
use compaction.Prelude.{
  ℕ, suc, ◌<◌, Bool, true, false, ◌&&◌, List, [], ◌∷◌, ◌≡◌, ◌⊎◌, inl, inr, refl, arith, length,
  str_eq, eq_iff, if◌then◌else◌, Bool-cases, All,
}
use compaction.Storage.Meta.{NodeId}

-- A total order on identifiers.
pub record SortOrder : Type 0 where
  pub before : NodeId → NodeId → Bool
  pub total : (a b : NodeId) → (before a b ≡ true) ⊎ (before b a ≡ true)
  pub antisym : (a b : NodeId) → before a b ≡ true → before b a ≡ true → a ≡ b
  pub trans : (a b c : NodeId) → before a b ≡ true → before b c ≡ true → before a c ≡ true

-- The loop over the sorted identifiers; one that is missing on the right is `undefined`.
abbrev pub same_ids : List NodeId → List NodeId → Bool
same_ids [] ys = true
same_ids (x ∷ xs) [] = false
same_ids (x ∷ xs) (y ∷ ys) = str_eq x y && same_ids xs ys

-- How often the identifier occurs.
abbrev pub count : NodeId → List NodeId → ℕ
count a [] = 0
count a (x ∷ xs) = if str_eq x a then suc (count a xs) else count a xs

module _ (O : SortOrder) where
  abbrev pub insert : NodeId → List NodeId → List NodeId
  insert a [] = a ∷ []
  insert a (x ∷ xs) = if O.before a x then a ∷ x ∷ xs else x ∷ insert a xs

  -- `ids.sort()`
  abbrev pub sort : List NodeId → List NodeId
  sort [] = []
  sort (x ∷ xs) = insert x (sort xs)

  count-insert :
      (a b : NodeId) (xs : List NodeId)
      → count a (insert b xs) ≡ (if str_eq b a then suc (count a xs) else count a xs)
  count-insert a b [] = refl
  count-insert a b (x ∷ xs) = ground (arith, count-insert a b xs)

  pub count-sort : (a : NodeId) (xs : List NodeId) → count a (sort xs) ≡ count a xs
  count-sort a [] = refl
  count-sort a (x ∷ xs) = ground (arith, count-insert a x (sort xs), count-sort a xs)

  length-insert : (a : NodeId) (xs : List NodeId) → length (insert a xs) ≡ suc (length xs)
  length-insert a [] = refl
  length-insert a (x ∷ xs) = ground (arith, length-insert a xs)

  pub length-sort : (xs : List NodeId) → length (sort xs) ≡ length xs
  length-sort [] = refl
  length-sort (x ∷ xs) = ground (arith, length-insert x (sort xs), length-sort xs)

  -- The first element comes before every other one, and so on.
  abbrev pub IsSorted : List NodeId → Type 0
  IsSorted [] = Unit
  IsSorted (x ∷ xs) = All (λ y. O.before x y ≡ true) xs × IsSorted xs

  All-before :
      (a b : NodeId) (xs : List NodeId)
      → O.before a b ≡ true
      → All (λ y. O.before b y ≡ true) xs
      → All (λ y. O.before a y ≡ true) xs
  All-before a b [] h k = tt
  All-before a b (x ∷ xs) h k = (O.trans a b x h k.0, All-before a b xs h k.1)

  All-insert :
      (a b : NodeId) (xs : List NodeId)
      → O.before a b ≡ true
      → All (λ y. O.before a y ≡ true) xs
      → All (λ y. O.before a y ≡ true) (insert b xs)
  All-insert a b [] h k = (h, tt)
  All-insert a b (x ∷ xs) h k = elim (Bool-cases (O.before b x)) [
    | inl first ↦ rw first (h, k)
    | inr later ↦ rw later (k.0, All-insert a b xs h k.1)
  ]

  insert-IsSorted : (a : NodeId) (xs : List NodeId) → IsSorted xs → IsSorted (insert a xs)
  insert-IsSorted a [] h = (tt, tt)
  insert-IsSorted a (x ∷ xs) h = elim (Bool-cases (O.before a x)) [
    | inl first ↦ rw first ((first, All-before a x xs first h.0), h)
    | inr later ↦
        rw later (All-insert x a xs (ground (arith, O.total a x)) h.0, insert-IsSorted a xs h.1)
  ]

  pub sort-IsSorted : (xs : List NodeId) → IsSorted (sort xs)
  sort-IsSorted [] = tt
  sort-IsSorted (x ∷ xs) = insert-IsSorted x (sort xs) (sort-IsSorted xs)

  -- What occurs in a sorted list is its first element or behind it.
  first_before :
      (a x : NodeId) (xs : List NodeId)
      → All (λ y. O.before x y ≡ true) xs
      → 0 < count a xs
      → O.before x a ≡ true
  first_before a x [] h k = absurd (omega arith)
  first_before a x (y ∷ ys) h k = elim (Bool-cases (str_eq y a)) [
    | inl same ↦ ground (arith, eq_iff y a, h.0)
    | inr other ↦ first_before a x ys h.1 (ground arith)
  ]

  same_first :
      (x y : NodeId) (xs ys : List NodeId)
      → IsSorted (x ∷ xs)
      → IsSorted (y ∷ ys)
      → ((a : NodeId) → count a (x ∷ xs) ≡ count a (y ∷ ys))
      → x ≡ y
  same_first x y xs ys h k e = elim (Bool-cases (str_eq x y)) [
    | inl same ↦ ground (arith, eq_iff x y)
    | inr other ↦
        O.antisym x y (first_before y x xs h.0 (ground (arith, e y, eq_iff y y)))
          (first_before x y ys k.0 (ground (arith, e x, eq_iff x x, eq_iff x y, eq_iff y x)))
  ]

  same_rest :
      (x y : NodeId) (xs ys : List NodeId)
      → x ≡ y
      → ((a : NodeId) → count a (x ∷ xs) ≡ count a (y ∷ ys))
      → (a : NodeId) → count a xs ≡ count a ys
  same_rest x y xs ys q e a = ground (arith, e a)

  -- Sorted lists in which everything occurs as often are the same.
  pub sorted_unique :
      (xs ys : List NodeId)
      → IsSorted xs
      → IsSorted ys
      → ((a : NodeId) → count a xs ≡ count a ys)
      → xs ≡ ys
  sorted_unique [] [] h k e = refl
  sorted_unique [] (y ∷ ys) h k e = absurd (ground (arith, e y, eq_iff y y))
  sorted_unique (x ∷ xs) [] h k e = absurd (ground (arith, e x, eq_iff x x))
  sorted_unique (x ∷ xs) (y ∷ ys) h k e =
      let q = same_first x y xs ys h k e in
      let rest = sorted_unique xs ys h.1 k.1 (same_rest x y xs ys q e) in rw (q, rest) refl

  pub same_ids_path :
      (xs ys : List NodeId) → length xs ≡ length ys → same_ids xs ys ≡ true → xs ≡ ys
  same_ids_path [] [] l h = refl
  same_ids_path [] (y ∷ ys) l h = absurd (omega arith)
  same_ids_path (x ∷ xs) [] l h = absurd (omega arith)
  same_ids_path (x ∷ xs) (y ∷ ys) l h =
      let q : x ≡ y = ground (arith, eq_iff x y) in
      let rest = same_ids_path xs ys (omega arith) (ground arith) in rw (q, rest) refl

  pub same_ids_self : (xs : List NodeId) → same_ids xs xs ≡ true
  same_ids_self [] = refl
  same_ids_self (x ∷ xs) = ground (arith, eq_iff x x, same_ids_self xs)
