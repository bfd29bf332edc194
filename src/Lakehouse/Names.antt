-- ===== src/Lakehouse/Names.antt =====
-- src/entsoe_pipeline/spark/landing_csv_reader.py and spark/core/iseberg_schema_generator.py:
-- to_snake_case, the name of a column from the header of a file. White space is that of ASCII.
pub mod Safety
use entsoe_pipeline.Prelude.{
  ℕ, zero, suc, ◌-◌, ◌≡◌, refl, Bool, true, false, not, ◌&&◌, ◌||◌, List, [], ◌∷◌, Text, text,
  starts_with, strip, lower, nat_eq, leb, if◌then◌else◌,
}
use entsoe_pipeline.Prelude.Texts.Spaces.{is_space, strip_space}

abbrev pub is_upper : ℕ → Bool
is_upper c = leb b'A' c && leb c b'Z'

abbrev pub is_lower : ℕ → Bool
is_lower c = leb b'a' c && leb c b'z'

-- How many characters the units and UTC markers at the start of the text take
abbrev pub unit_length : Text → ℕ
unit_length s =
    if starts_with s (text "(UTC)")
    then 5
    else if starts_with s (text "[MW]")
    then 4
    else if starts_with s (text "[EUR/MWh]")
    then 9
    else if starts_with s (text "[EUR/MW]")
    then 8
    else if starts_with s (text "[%]")
    then 3
    else 0

-- The text without its units, after the first characters, which are those of one
unfoldable pub remove_units : ℕ → Text → Text
remove_units n [] = []
remove_units (suc n) (c ∷ s) = remove_units n s
remove_units zero (c ∷ s) =
    let kept = c ∷ remove_units zero s in
    let removed = remove_units (unit_length (c ∷ s) - 1) s in
    if nat_eq (unit_length (c ∷ s)) 0 then kept else removed

-- `[A-Z][a-z]+` at the start of the text
abbrev pub starts_word : Text → Bool
starts_word [] = false
starts_word (c ∷ []) = false
starts_word (c ∷ d ∷ s) = is_upper c && is_lower d

-- Where a match of `(.)([A-Z][a-z]+)` is read: before one, at its capital, or in its small letters
pub data Place : Type 0 where
  before capital small : Place

unfoldable pub split_words : Place → Text → Text
split_words place [] = []
split_words capital (c ∷ s) = c ∷ split_words small s
split_words before (c ∷ s) =
    let split = c ∷ (b'_' ∷ split_words capital s) in
    let kept = c ∷ split_words before s in
    if not (nat_eq c 10) && starts_word s then split else kept
split_words small (c ∷ s) =
    let split = c ∷ (b'_' ∷ split_words capital s) in
    let kept = c ∷ split_words before s in
    let in_word = c ∷ split_words small s in
    if is_lower c then in_word else if not (nat_eq c 10) && starts_word s then split else kept

abbrev pub starts_upper : Text → Bool
starts_upper [] = false
starts_upper (c ∷ s) = is_upper c

-- `([a-z0-9])([A-Z])` to `\1_\2`; the capital of a match cannot begin the next one.
unfoldable pub split_capitals : Text → Text
split_capitals [] = []
split_capitals (c ∷ s) =
    let rest = split_capitals s in
    if (is_lower c || (leb b'0' c && leb c b'9')) && starts_upper s
    then c ∷ (b'_' ∷ rest)
    else c ∷ rest

abbrev pub is_separator : ℕ → Bool
is_separator c = is_space c || (nat_eq c b'-' || nat_eq c b'.')

-- `[\s\-.]+` to `_`; the first argument says that a separator has been read.
unfoldable pub join_separated : Bool → Text → Text
join_separated seen [] = []
join_separated seen (c ∷ s) =
    let more = join_separated true s in
    let rest = c ∷ join_separated false s in
    if is_separator c then if seen then more else b'_' ∷ more else rest

unfoldable pub to_snake_case : Text → Text
unfolding remove_units split_words split_capitals join_separated lower strip strip_space
to_snake_case name =
    let clean = strip_space (remove_units 0 name) in
    let s1 = split_words before clean in
    let s2 = split_capitals s1 in let s3 = join_separated false s2 in strip b'_' (lower s3)

to_snake_case_runs :
    (to_snake_case (text "Price [EUR/MWh]") ≡ text "price")
    × (to_snake_case (text "DateTime(UTC)") ≡ text "date_time")
    × (to_snake_case (text "ResolutionCode - MTUPeriod") ≡ text "resolution_code_mtu_period")
unfolding to_snake_case starts_with
to_snake_case_runs = (refl, refl, refl)
