-- ===== src/Prelude/Texts.antt =====
-- Python's `str` as the list of its code points, and the methods of `str` that the program calls.
-- `lower` is that of ASCII: names on the platform are ASCII.
pub mod Decimals
pub mod Segments
pub mod Order
pub mod Spaces
use Prim.Native.Nat.{ℕ, zero, suc, ◌+◌, ◌-◌, ◌/◌, ◌%◌}
use Prim.Native.Char.{code}
use Prim.Native.String.{String}
use mathlib.Core.Path.{◌≡◌, refl}
use mathlib.Core.Logic.{◌↔◌}
use mathlib.Core.Bool.{Bool, true, false, ◌&&◌, ◌||◌}
use mathlib.Core.List.{List, [], ◌∷◌, ◌++◌, map, reverse}
use native.Mathlib.Omega.{arith}
use entsoe_pipeline.Prelude.Tests.{nat_eq, leb, ltb, if◌then◌else◌}

abbrev pub Text : Type 0
Text = List ℕ

-- A literal of the source.
abbrev pub text : String → Text
text String.[] = []
text (String.◌∷◌ c s) = code c ∷ text s

infix 50 ◌==◌
unfoldable pub ◌==◌ : Text → Text → Bool
[] == [] = true
[] == (d ∷ t) = false
(c ∷ s) == [] = false
(c ∷ s) == (d ∷ t) = nat_eq c d && s == t

pub eq_iff : (s t : Text) → ((s == t) ≡ true) ↔ (s ≡ t)
unfolding ◌==◌
eq_iff [] [] = ground arith
eq_iff [] (d ∷ t) = ground arith
eq_iff (c ∷ s) [] = ground arith
eq_iff (c ∷ s) (d ∷ t) = ground (arith, eq_iff s t)

pub eq_refl : (s : Text) → (s == s) ≡ true
eq_refl s = (eq_iff s s).1 refl

-- `x in xs`
unfoldable pub contains : List Text → Text → Bool
contains [] x = false
contains (y ∷ ys) x = y == x || contains ys x

-- `s.startswith(p)`
unfoldable pub starts_with : Text → Text → Bool
starts_with s [] = true
starts_with [] (d ∷ p) = false
starts_with (c ∷ s) (d ∷ p) = nat_eq c d && starts_with s p

-- `s.endswith(p)`
unfoldable pub ends_with : Text → Text → Bool
unfolding starts_with
ends_with s p = starts_with (reverse s) (reverse p)

-- `p in s`
unfoldable pub has_substring : Text → Text → Bool
unfolding starts_with
has_substring [] p = starts_with [] p
has_substring (c ∷ s) p = starts_with (c ∷ s) p || has_substring s p

unfoldable pub lower_char : ℕ → ℕ
lower_char c = if leb b'A' c && leb c b'Z' then c + 32 else c

-- `s.lower()`
unfoldable pub lower : Text → Text
unfolding lower_char
lower = map lower_char

unfoldable pub upper_char : ℕ → ℕ
upper_char c = if leb b'a' c && leb c b'z' then c - 32 else c

-- `s.upper()`
unfoldable pub upper : Text → Text
unfolding upper_char
upper = map upper_char

-- The first segment of `s.split(c)` and the others.
unfoldable pub split_first : ℕ → Text → Text × List Text
split_first c [] = ([], [])
split_first c (d ∷ s) =
    let (first, rest) = split_first c s in
    if nat_eq d c then ([], first ∷ rest) else (d ∷ first, rest)

-- `s.split(c)` for a separator of one character
unfoldable pub split : ℕ → Text → List Text
unfolding split_first
split c s = let (first, rest) = split_first c s in first ∷ rest

-- `c.join(parts)`
unfoldable pub join : ℕ → List Text → Text
join c [] = []
join c (p ∷ []) = p
join c (p ∷ q ∷ ps) = p ++ (c ∷ join c (q ∷ ps))

-- `s.lstrip(c)`
unfoldable pub lstrip : ℕ → Text → Text
lstrip c [] = []
lstrip c (d ∷ s) = let rest = lstrip c s in if nat_eq d c then rest else d ∷ s

-- `s.rstrip(c)`
unfoldable pub rstrip : ℕ → Text → Text
unfolding lstrip
rstrip c s = reverse (lstrip c (reverse s))

-- `s.strip(c)`
unfoldable pub strip : ℕ → Text → Text
unfolding rstrip lstrip
strip c s = rstrip c (lstrip c s)

-- `s.replace(c + c, c)` for one character `c`
unfoldable pub replace_doubled : ℕ → Text → Text
replace_doubled c [] = []
replace_doubled c (d ∷ []) = d ∷ []
replace_doubled c (d ∷ e ∷ s) =
    let merged = c ∷ replace_doubled c s in
    let kept = d ∷ replace_doubled c (e ∷ s) in if nat_eq d c && nat_eq e c then merged else kept

-- `s.replace(c, t)` for a separator of one character
unfoldable pub replace_char : ℕ → Text → Text → Text
replace_char c t [] = []
replace_char c t (d ∷ s) =
    let rest = replace_char c t s in if nat_eq d c then t ++ rest else d ∷ rest

digits_on : ℕ → ℕ → Text → Text
digits_on zero n rest = rest
digits_on (suc fuel) n rest =
    let shown = (b'0' + n % 10) ∷ rest in
    let more = digits_on fuel (n / 10) shown in if ltb n 10 then shown else more

-- `str(n)`: each round takes one digit off, so `n + 1` rounds are enough.
unfoldable pub decimal : ℕ → Text
unfolding digits_on
decimal n = digits_on (suc n) n []

decimal_runs : decimal 20480 ≡ text "20480"
unfolding decimal
decimal_runs = refl

split_runs :
    split b'/' (text "iop/TP_export//x") ≡ text "iop" ∷ text "TP_export" ∷ text "" ∷ text "x" ∷ []
unfolding split
split_runs = refl

methods_run :
    (lower (text "Load_R3") ≡ text "load_r3")
    × (strip b'/' (text "//a/b/") ≡ text "a/b")
    × (ends_with (text "x.csv") (text ".csv") ≡ true)
    × (has_substring (text "Export_log") (text "port") ≡ true)
    × (replace_doubled b'/' (text "a//b///c") ≡ text "a/b//c")
unfolding lower strip ends_with has_substring replace_doubled
methods_run = (refl, refl, refl, refl, refl)
