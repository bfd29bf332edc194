-- ===== src/Prelude/Texts/Order.antt =====
-- The order of Python's `str` by code points, `sorted(xs)`, and `sorted(set(xs))`.
use Prim.Native.Nat.{ℕ}
use mathlib.Core.Path.{◌≡◌, refl}
use mathlib.Core.Logic.{inl, inr}
use mathlib.Core.Bool.{Bool, true, false, ◌&&◌, ◌||◌}
use mathlib.Core.List.{List, [], ◌∷◌, ◌++◌}
use native.Mathlib.Omega.{arith}
use entsoe_pipeline.Prelude.Tests.{nat_eq, ltb, if◌then◌else◌, Bool-cases}
use entsoe_pipeline.Prelude.Lists.{All, length, filter}
use entsoe_pipeline.Prelude.Texts.{Text, ◌==◌, eq_iff, contains}

-- `s <= t`
unfoldable pub text_le : Text → Text → Bool
text_le [] t = true
text_le (c ∷ s) [] = false
text_le (c ∷ s) (d ∷ t) = ltb c d || (nat_eq c d && text_le s t)

pub text_le_trans : (s t u : Text) → text_le s t ≡ true → text_le t u ≡ true → text_le s u ≡ true
unfolding text_le
text_le_trans [] t u h k = refl
text_le_trans (c ∷ s) [] u h k = ground arith
text_le_trans (c ∷ s) (d ∷ t) [] h k = ground arith
text_le_trans (c ∷ s) (d ∷ t) (e ∷ u) h k = ground (arith, text_le_trans s t u)

pub text_le_total : (s t : Text) → text_le s t ≡ false → text_le t s ≡ true
unfolding text_le
text_le_total [] t h = ground arith
text_le_total (c ∷ s) [] h = refl
text_le_total (c ∷ s) (d ∷ t) h = ground (arith, text_le_total s t)

pub text_le_refl : (s : Text) → text_le s s ≡ true
unfolding text_le
text_le_refl [] = refl
text_le_refl (c ∷ s) = ground (arith, text_le_refl s)

pub text_le_antisym : (s t : Text) → text_le s t ≡ true → text_le t s ≡ true → s ≡ t
unfolding text_le
text_le_antisym [] [] h k = refl
text_le_antisym [] (d ∷ t) h k = ground arith
text_le_antisym (c ∷ s) [] h k = ground arith
text_le_antisym (c ∷ s) (d ∷ t) h k = ground (arith, text_le_antisym s t)

-- Places a text before the first one that is not smaller.
unfoldable pub place_text : Text → List Text → List Text
place_text x [] = x ∷ []
place_text x (y ∷ ys) = let rest = place_text x ys in if text_le x y then x ∷ y ∷ ys else y ∷ rest

-- `sorted(xs)`
unfoldable pub sorted : List Text → List Text
unfolding place_text
sorted [] = []
sorted (x ∷ xs) = place_text x (sorted xs)

-- The same for a text that may be there.
abbrev pub place_new : Text → List Text → List Text
place_new x ys = if contains ys x then ys else place_text x ys

-- `sorted(set(xs))`
unfoldable pub sorted_set : List Text → List Text
unfolding place_text
sorted_set [] = []
sorted_set (x ∷ xs) = place_new x (sorted_set xs)

-- Every text comes before all that follow it.
abbrev pub IsOrdered : List Text → Type 0
IsOrdered [] = Unit
IsOrdered (x ∷ xs) = All (λ y. text_le x y ≡ true) xs × IsOrdered xs

All-place_text :
    (s x : Text) (ys : List Text)
    → text_le s x ≡ true
    → All (λ y. text_le s y ≡ true) ys
    → All (λ y. text_le s y ≡ true) (place_text x ys)
unfolding place_text
All-place_text s x [] h hs = (h, tt)
All-place_text s x (y ∷ ys) h hs = elim (Bool-cases (text_le x y)) [
  | inl e ↦ rw e (h, hs)
  | inr e ↦ rw e (hs.0, All-place_text s x ys h hs.1)
]

All-above :
    (s t : Text) (ys : List Text)
    → text_le s t ≡ true
    → All (λ y. text_le t y ≡ true) ys
    → All (λ y. text_le s y ≡ true) ys
All-above s t [] h hs = tt
All-above s t (y ∷ ys) h hs = (text_le_trans s t y h hs.0, All-above s t ys h hs.1)

place_text-IsOrdered : (x : Text) (ys : List Text) → IsOrdered ys → IsOrdered (place_text x ys)
unfolding place_text
place_text-IsOrdered x [] h = (tt, tt)
place_text-IsOrdered x (y ∷ ys) h = elim (Bool-cases (text_le x y)) [
  | inl e ↦ rw e ((e, All-above x y ys e h.0), h)
  | inr e ↦ rw e (All-place_text y x ys (text_le_total x y e) h.0, place_text-IsOrdered x ys h.1)
]

pub sorted-IsOrdered : (xs : List Text) → IsOrdered (sorted xs)
unfolding sorted
sorted-IsOrdered [] = tt
sorted-IsOrdered (x ∷ xs) = place_text-IsOrdered x (sorted xs) (sorted-IsOrdered xs)

pub sorted_set-IsOrdered : (xs : List Text) → IsOrdered (sorted_set xs)
unfolding sorted_set
sorted_set-IsOrdered [] = tt
sorted_set-IsOrdered (x ∷ xs) = elim (Bool-cases (contains (sorted_set xs) x)) [
  | inl e ↦ rw e (sorted_set-IsOrdered xs)
  | inr e ↦ rw e (place_text-IsOrdered x (sorted_set xs) (sorted_set-IsOrdered xs))
]

-- How often a text stands in a list
abbrev pub count : Text → List Text → ℕ
count z xs = length (filter (λ x. x == z) xs)

count-place_text : (z x : Text) (ys : List Text) → count z (place_text x ys) ≡ count z (x ∷ ys)
unfolding place_text
count-place_text z x [] = refl
count-place_text z x (y ∷ ys) = ground (arith, count-place_text z x ys)

pub count-sorted : (z : Text) (xs : List Text) → count z (sorted xs) ≡ count z xs
unfolding sorted
count-sorted z [] = refl
count-sorted z (x ∷ xs) = ground (arith, count-place_text z x (sorted xs), count-sorted z xs)

pub contains-place_text :
    (z x : Text) (ys : List Text) → contains (place_text x ys) z ≡ (x == z || contains ys z)
unfolding contains place_text
contains-place_text z x [] = refl
contains-place_text z x (y ∷ ys) = ground (arith, contains-place_text z x ys)

pub contains-sorted : (z : Text) (xs : List Text) → contains (sorted xs) z ≡ contains xs z
unfolding contains sorted
contains-sorted z [] = refl
contains-sorted z (x ∷ xs) =
    ground (arith, contains-place_text z x (sorted xs), contains-sorted z xs)

pub contains-sorted_set : (z : Text) (xs : List Text) → contains (sorted_set xs) z ≡ contains xs z
unfolding contains sorted_set
contains-sorted_set z [] = refl
contains-sorted_set z (x ∷ xs) =
    ground (arith, contains-place_text z x (sorted_set xs), contains-sorted_set z xs, eq_iff x z)

count_absent : (z : Text) (xs : List Text) → contains xs z ≡ false → count z xs ≡ 0
unfolding contains
count_absent z [] h = refl
count_absent z (x ∷ xs) h = ground (arith, count_absent z xs)

-- Each text of a list stands in its sorted set once.
pub count-sorted_set :
    (z : Text) (xs : List Text) → count z (sorted_set xs) ≡ (if contains xs z then 1 else 0)
unfolding contains sorted_set
count-sorted_set z [] = refl
count-sorted_set z (x ∷ xs) = ground (
  arith,
  count-place_text z x (sorted_set xs),
  count-sorted_set z xs,
  count_absent z (sorted_set xs),
  contains-sorted_set z xs,
  eq_iff x z,
)

pub contains-filter :
    (p : Text → Bool) (f : Text) (xs : List Text)
    → contains (filter p xs) f ≡ (contains xs f && p f)
unfolding contains
contains-filter p f [] = refl
contains-filter p f (x ∷ xs) = ground (arith, contains-filter p f xs, eq_iff x f)

pub contains-append :
    (f : Text) (xs ys : List Text) → contains (xs ++ ys) f ≡ (contains xs f || contains ys f)
unfolding contains
contains-append f [] ys = refl
contains-append f (x ∷ xs) ys = ground (arith, contains-append f xs ys)
