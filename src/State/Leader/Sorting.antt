-- ===== src/State/Leader/Sorting.antt =====
-- `[...new Set(values)]` and `values.sort((a, b) => b - a)` on numbers.
use compaction.Prelude.{
  ap, ℕ, ◌≤◌, Bool, true, false, ◌||◌, List, [], ◌∷◌, ◌++◌, ◌≡◌, refl, arith, leb, ◌==◌,
  if◌then◌else◌, filter, All,
}

abbrev pub has : List ℕ → ℕ → Bool
has [] a = false
has (x ∷ xs) a = x == a || has xs a

add_all : List ℕ → List ℕ → List ℕ
add_all seen [] = seen
add_all seen (x ∷ xs) = add_all (if has seen x then seen else seen ++ x ∷ []) xs

unfoldable pub to_set : List ℕ → List ℕ
unfolding add_all
to_set xs = add_all [] xs

unfoldable pub insert_desc : ℕ → List ℕ → List ℕ
insert_desc x [] = x ∷ []
insert_desc x (y ∷ ys) = if leb y x then x ∷ y ∷ ys else y ∷ insert_desc x ys

unfoldable pub sort_desc : List ℕ → List ℕ
unfolding insert_desc
sort_desc [] = []
sort_desc (x ∷ xs) = insert_desc x (sort_desc xs)

abbrev pub IsDescending : List ℕ → Type 0
IsDescending [] = Unit
IsDescending (x ∷ xs) = All (λ y. y ≤ x) xs × IsDescending xs

has-append : (xs ys : List ℕ) (a : ℕ) → has (xs ++ ys) a ≡ (has xs a || has ys a)
has-append [] ys a = refl
has-append (x ∷ xs) ys a = ground (arith, has-append xs ys a)

has-add_all : (seen xs : List ℕ) (a : ℕ) → has (add_all seen xs) a ≡ (has seen a || has xs a)
unfolding add_all
has-add_all seen [] a = ground arith
has-add_all seen (x ∷ xs) a = ground (
  arith,
  has-append seen (x ∷ []) a,
  has-add_all (if has seen x then seen else seen ++ x ∷ []) xs a,
)

pub has-to_set : (xs : List ℕ) (a : ℕ) → has (to_set xs) a ≡ has xs a
unfolding to_set
has-to_set xs a = has-add_all [] xs a

has-insert_desc : (x : ℕ) (ys : List ℕ) (a : ℕ) → has (insert_desc x ys) a ≡ (x == a || has ys a)
unfolding insert_desc
has-insert_desc x [] a = refl
has-insert_desc x (y ∷ ys) a = ground (arith, has-insert_desc x ys a)

pub has-sort_desc : (xs : List ℕ) (a : ℕ) → has (sort_desc xs) a ≡ has xs a
unfolding sort_desc
has-sort_desc [] a = refl
has-sort_desc (x ∷ xs) a = ground (arith, has-sort_desc xs a, has-insert_desc x (sort_desc xs) a)

pub has-filter :
    (p : ℕ → Bool) (xs : List ℕ) (a : ℕ) → p a ≡ true → has xs a ≡ true → has (filter p xs) a ≡ true
has-filter p [] a pa h = h
has-filter p (x ∷ xs) a pa h = ground (arith, has-filter p xs a pa, ap p)

All-weaken : (x y : ℕ) (ys : List ℕ) → y ≤ x → All (λ z. z ≤ y) ys → All (λ z. z ≤ x) ys
All-weaken x y [] le h = tt
All-weaken x y (z ∷ zs) le h = (omega arith, All-weaken x y zs le h.1)

All-insert_desc :
    (x y : ℕ) (ys : List ℕ) → x ≤ y → All (λ z. z ≤ y) ys → All (λ z. z ≤ y) (insert_desc x ys)
unfolding insert_desc
All-insert_desc x y [] le h = (le, tt)
All-insert_desc x y (z ∷ zs) le h = ground (arith, All-insert_desc x y zs le h.1)

insert_desc-IsDescending : (x : ℕ) (ys : List ℕ) → IsDescending ys → IsDescending (insert_desc x ys)
unfolding insert_desc
insert_desc-IsDescending x [] h = (tt, tt)
insert_desc-IsDescending x (y ∷ ys) h =
    ground (arith, All-weaken x y ys, All-insert_desc x y ys, insert_desc-IsDescending x ys h.1)

pub sort_desc-IsDescending : (xs : List ℕ) → IsDescending (sort_desc xs)
unfolding sort_desc
sort_desc-IsDescending [] = tt
sort_desc-IsDescending (x ∷ xs) =
    insert_desc-IsDescending x (sort_desc xs) (sort_desc-IsDescending xs)
