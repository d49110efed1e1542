-- ===== src/Examples/Orders.antt =====
-- Strings in the order of their characters' numbers.
use Prim.Native.String.{String, [], ◌∷◌}
use Prim.Native.Char.{code}
use text.Mathlib.TextEquality.{Char-path}
use compaction.Prelude.{Bool, true, false, ◌≡◌, ◌⊎◌, inl, inr, refl, arith, ltb, if◌then◌else◌}
use compaction.Config.Sorting.{SortOrder}

abbrev str_before : String → String → Bool
str_before [] t = true
str_before (c ∷ s) [] = false
str_before (c ∷ s) (d ∷ t) =
    let rest = str_before s t in
    if ltb (code c) (code d) then true else if ltb (code d) (code c) then false else rest

str_before_total : (a b : String) → (str_before a b ≡ true) ⊎ (str_before b a ≡ true)
str_before_total [] b = inl refl
str_before_total (c ∷ s) [] = inr refl
str_before_total (c ∷ s) (d ∷ t) = ground (arith, str_before_total s t)

str_before_antisym : (a b : String) → str_before a b ≡ true → str_before b a ≡ true → a ≡ b
str_before_antisym [] [] h k = refl
str_before_antisym [] (d ∷ t) h k = cc
str_before_antisym (c ∷ s) [] h k = cc
str_before_antisym (c ∷ s) (d ∷ t) h k =
    let q : code c ≡ code d = ground arith in
    let e : c ≡ d = Char-path c d q in
    let r : s ≡ t = str_before_antisym s t (ground arith) (ground arith) in rw (e, r) refl

str_before_trans :
    (a b c : String) → str_before a b ≡ true → str_before b c ≡ true → str_before a c ≡ true
str_before_trans [] b c h k = refl
str_before_trans (x ∷ s) [] c h k = cc
str_before_trans (x ∷ s) (y ∷ t) [] h k = cc
str_before_trans (x ∷ s) (y ∷ t) (z ∷ u) h k = ground (arith, str_before_trans s t u)

pub by_characters : SortOrder
by_characters = record {
  before = str_before;
  total = str_before_total;
  antisym = str_before_antisym;
  trans = str_before_trans;
}
