-- ===== src/Prelude/Slices.antt =====
-- Parts of a list, and their concatenation.
use Prim.Native.Nat.{ℕ, zero, suc, ◌+◌, ◌≤◌}
use mathlib.Core.Path.{◌≡◌, refl, sym, ap, ◌∙◌}
use mathlib.Core.List.{List, [], ◌∷◌, ◌++◌}
use native.Mathlib.Omega.{arith}
use Prim.Native.Nat.{◌-◌, min}
use mathlib.Core.Option.{none}
use compaction.Prelude.Tests.{ltb, if◌then◌else◌}
use compaction.Prelude.Lists.{length, get_elem?}

module _ {ℓ} {A : Type ℓ} where
  abbrev pub take : ℕ → List A → List A
  take zero xs = []
  take (suc n) [] = []
  take (suc n) (x ∷ xs) = x ∷ take n xs

  abbrev pub drop : ℕ → List A → List A
  drop zero xs = xs
  drop (suc n) [] = []
  drop (suc n) (x ∷ xs) = drop n xs

  -- `Buffer.concat`, on lists
  abbrev pub concat : List (List A) → List A
  concat [] = []
  concat (c ∷ cs) = c ++ concat cs

  pub take-all : (n : ℕ) (xs : List A) → length xs ≤ n → take n xs ≡ xs
  take-all zero [] h = refl
  take-all zero (x ∷ xs) h = absurd (omega arith)
  take-all (suc n) [] h = refl
  take-all (suc n) (x ∷ xs) h = ap (λ ys. x ∷ ys) (take-all n xs (omega arith))

  pub take-drop : (o k : ℕ) (xs : List A) → take o xs ++ take k (drop o xs) ≡ take (o + k) xs
  take-drop zero k xs = let e : 0 + k ≡ k = omega arith in rw e refl
  take-drop (suc o) zero [] = let e : suc o + 0 ≡ suc o = omega arith in rw e refl
  take-drop (suc o) (suc k) [] = let e : suc o + suc k ≡ suc (o + suc k) = omega arith in rw e refl
  take-drop (suc o) k (x ∷ xs) =
      let e : suc o + k ≡ suc (o + k) = omega arith in rw e (ap (λ ys. x ∷ ys) (take-drop o k xs))

  pub length-take-drop :
      (o k : ℕ) (xs : List A) → o + k ≤ length xs → length (take k (drop o xs)) ≡ k
  length-take-drop zero zero xs h = refl
  length-take-drop zero (suc k) [] h = absurd (omega arith)
  length-take-drop zero (suc k) (x ∷ xs) h = ap suc (length-take-drop zero k xs (omega arith))
  length-take-drop (suc o) k [] h = absurd (omega arith)
  length-take-drop (suc o) k (x ∷ xs) h = length-take-drop o k xs (omega arith)

  pub append_nil : (xs : List A) → xs ++ [] ≡ xs
  append_nil [] = refl
  append_nil (x ∷ xs) = ap (λ ys. x ∷ ys) (append_nil xs)

  pub append_assoc : (xs ys zs : List A) → (xs ++ ys) ++ zs ≡ xs ++ (ys ++ zs)
  append_assoc [] ys zs = refl
  append_assoc (x ∷ xs) ys zs = ap (λ us. x ∷ us) (append_assoc xs ys zs)

  pub concat-snoc : (cs : List (List A)) (b : List A) → concat (cs ++ b ∷ []) ≡ concat cs ++ b
  concat-snoc [] b = append_nil b
  concat-snoc (c ∷ cs) b =
      ap (λ ys. c ++ ys) (concat-snoc cs b) ∙ sym (append_assoc c (concat cs) b)

  pub get_elem?-append :
      (xs ys : List A) (k : ℕ)
      → get_elem? (xs ++ ys) k
        ≡ (if ltb k (length xs) then get_elem? xs k else get_elem? ys (k - length xs))
  get_elem?-append [] ys k = ground arith
  get_elem?-append (x ∷ xs) ys zero = ground arith
  get_elem?-append (x ∷ xs) ys (suc k) = ground (arith, get_elem?-append xs ys k)

  pub get_elem?-take :
      (n : ℕ) (xs : List A) (k : ℕ)
      → get_elem? (take n xs) k ≡ (if ltb k n then get_elem? xs k else none)
  get_elem?-take zero xs k = ground arith
  get_elem?-take (suc n) [] k = ground arith
  get_elem?-take (suc n) (x ∷ xs) zero = ground arith
  get_elem?-take (suc n) (x ∷ xs) (suc k) = ground (arith, get_elem?-take n xs k)

  pub get_elem?-drop :
      (n : ℕ) (xs : List A) (k : ℕ) → get_elem? (drop n xs) k ≡ get_elem? xs (n + k)
  get_elem?-drop zero xs k = let e : 0 + k ≡ k = omega arith in rw e refl
  get_elem?-drop (suc n) [] k = refl
  get_elem?-drop (suc n) (x ∷ xs) k =
      let e : suc n + k ≡ suc (n + k) = omega arith in rw e (get_elem?-drop n xs k)

  pub length-take : (n : ℕ) (xs : List A) → length (take n xs) ≡ min n (length xs)
  length-take zero xs = ground arith
  length-take (suc n) [] = ground arith
  length-take (suc n) (x ∷ xs) = ground (arith, length-take n xs)

  pub length-drop : (n : ℕ) (xs : List A) → length (drop n xs) ≡ length xs - n
  length-drop zero xs = ground arith
  length-drop (suc n) [] = ground arith
  length-drop (suc n) (x ∷ xs) = ground (arith, length-drop n xs)
