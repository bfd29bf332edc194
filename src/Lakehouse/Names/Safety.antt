-- ===== src/Lakehouse/Names/Safety.antt =====
-- The characters of a column's name.
use mathlib.Core.List.{reverse, reverse-cons}
use entsoe_pipeline.Prelude.{
  ℕ, ◌≡◌, refl, Bool, true, false, [], ◌∷◌, Text, All, All-append, lstrip, rstrip, strip, lower,
  lower_char, nat_eq, if◌then◌else◌, arith, Bool-cases, inl, inr,
}
use entsoe_pipeline.Prelude.Texts.Spaces.{strip_space}
use entsoe_pipeline.Lakehouse.Names.{
  is_upper, is_separator, join_separated, to_snake_case, remove_units, split_words, split_capitals,
  before,
}

-- Neither a separator nor a capital
abbrev pub IsSafe : ℕ → Type 0
IsSafe c = (is_separator c ≡ false) × (is_upper c ≡ false)

lower_char-IsSafe : (c : ℕ) → is_separator c ≡ false → IsSafe (lower_char c)
unfolding lower_char
lower_char-IsSafe c h = ground (arith, h)

-- One separator for those read, where none has been
one_separator :
    (seen : Bool) (s : Text)
    → All IsSafe (lower s)
    → All IsSafe (lower (if seen then s else b'_' ∷ s))
unfolding lower
one_separator true s h = h
one_separator false s h = (lower_char-IsSafe b'_' refl, h)

join_separated-lower : (seen : Bool) (s : Text) → All IsSafe (lower (join_separated seen s))
unfolding join_separated lower
join_separated-lower seen [] = tt
join_separated-lower seen (c ∷ s) = elim (Bool-cases (is_separator c)) [
  | inl e ↦ rw e (one_separator seen (join_separated true s) (join_separated-lower true s))
  | inr e ↦ rw e (lower_char-IsSafe c e, join_separated-lower false s)
]

All-lstrip : (c : ℕ) (s : Text) → All IsSafe s → All IsSafe (lstrip c s)
unfolding lstrip
All-lstrip c [] h = tt
All-lstrip c (d ∷ s) h = elim (Bool-cases (nat_eq d c)) [
  | inl e ↦ rw e (All-lstrip c s h.1)
  | inr e ↦ rw e h
]

All-reverse : (s : Text) → All IsSafe s → All IsSafe (reverse s)
All-reverse [] h = tt
All-reverse (d ∷ s) h =
    rw (reverse-cons d s) (All-append IsSafe (reverse s) (d ∷ []) (All-reverse s h.1) (h.0, tt))

All-strip : (c : ℕ) (s : Text) → All IsSafe s → All IsSafe (strip c s)
unfolding strip rstrip
All-strip c s h =
    All-reverse (lstrip c (reverse (lstrip c s)))
      (All-lstrip c (reverse (lstrip c s)) (All-reverse (lstrip c s) (All-lstrip c s h)))

-- Every name that the headers are brought to is free of ASCII capitals, of white space, hyphens and
-- dots.
pub to_snake_case-IsSafe : (name : Text) → All IsSafe (to_snake_case name)
unfolding to_snake_case
to_snake_case-IsSafe name =
    let split = split_capitals (split_words before (strip_space (remove_units 0 name))) in
    All-strip b'_' (lower (join_separated false split)) (join_separated-lower false split)
