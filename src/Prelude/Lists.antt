-- ===== src/Prelude/Lists.antt =====
-- Lists measured and indexed by native numbers, and predicates on lists by recursion.
use Prim.Native.Nat.{ℕ, zero, suc, ◌+◌}
use mathlib.Core.Path.{◌≡◌, refl}
use mathlib.Core.Bool.{Bool, true, false, ◌||◌}
use mathlib.Core.List.{List, [], ◌∷◌, ◌++◌}
use mathlib.Core.Option.{Option, none, some}
use native.Mathlib.Omega.{arith}
use mathlib.Core.Logic.{inl, inr}
use Prim.Native.String.{String}
use text.Mathlib.Text.{◌==◌ as str_eq}
use text.Mathlib.TextEquality.{eq_iff}
use compaction.Prelude.Tests.{if◌then◌else◌, Bool-cases}

module _ {ℓ} {A : Type ℓ} where
  abbrev pub length : List A → ℕ
  length [] = 0
  length (x ∷ xs) = suc (length xs)

  abbrev pub get_elem? : List A → ℕ → Option A
  get_elem? [] i = none
  get_elem? (x ∷ xs) zero = some x
  get_elem? (x ∷ xs) (suc i) = get_elem? xs i

  pub length-append : (xs ys : List A) → length (xs ++ ys) ≡ length xs + length ys
  length-append [] ys = omega arith
  length-append (x ∷ xs) ys = omega (arith, length-append xs ys)

  abbrev pub All {κ} : (A → Type κ) → List A → Type κ
  All P [] = Unit
  All P (x ∷ xs) = P x × All P xs

  -- `xs.filter(p)`
  abbrev pub filter : (A → Bool) → List A → List A
  filter p [] = []
  filter p (x ∷ xs) = elim (p x) [ true ↦ x ∷ filter p xs | false ↦ filter p xs ]

  -- `xs.some(p)`
  abbrev pub any : (A → Bool) → List A → Bool
  any p [] = false
  any p (x ∷ xs) = p x || any p xs

  -- the last element of a list that starts with the given one
  abbrev pub last : A → List A → A
  last x [] = x
  last x (y ∷ ys) = last y ys

-- `xs.includes(a)` on identifiers; also the membership test of a `Set` kept as a list.
abbrev pub includes : List String → String → Bool
includes [] a = false
includes (x ∷ xs) a = str_eq x a || includes xs a

-- No identifier occurs twice, as in a `Set`.
abbrev pub Distinct : List String → Type 0
Distinct [] = Unit
Distinct (x ∷ xs) = (includes xs x ≡ false) × Distinct xs

-- `set.add(a)`
abbrev pub add_to_set : String → List String → List String
add_to_set a xs = if includes xs a then xs else xs ++ a ∷ []

pub includes-append :
    (xs ys : List String) (a : String) → includes (xs ++ ys) a ≡ (includes xs a || includes ys a)
includes-append [] ys a = refl
includes-append (x ∷ xs) ys a = ground (arith, includes-append xs ys a)

Distinct-append :
    (xs : List String) (a : String) → includes xs a ≡ false → Distinct xs → Distinct (xs ++ a ∷ [])
Distinct-append [] a h d = (refl, tt)
Distinct-append (x ∷ xs) a h d = (
  ground (arith, includes-append xs (a ∷ []) x, eq_iff a x, eq_iff x a),
  Distinct-append xs a (ground arith) d.1,
)

pub add_to_set-Distinct : (a : String) (xs : List String) → Distinct xs → Distinct (add_to_set a xs)
add_to_set-Distinct a xs d = elim (Bool-cases (includes xs a)) [
  | inl old ↦ rw old d
  | inr new ↦ rw new (Distinct-append xs a new d)
]

pub includes-add_to_set :
    (a b : String) (xs : List String) → includes (add_to_set a xs) b ≡ (includes xs b || str_eq a b)
includes-add_to_set a b xs = ground (arith, includes-append xs (a ∷ []) b, eq_iff a b)
