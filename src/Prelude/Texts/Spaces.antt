-- ===== src/Prelude/Texts/Spaces.antt =====
-- Python's `s.strip()`, for ASCII white space.
use Prim.Native.Nat.{ℕ}
use mathlib.Core.Bool.{Bool, ◌&&◌, ◌||◌}
use mathlib.Core.List.{[], ◌∷◌, reverse}
use entsoe_pipeline.Prelude.Tests.{nat_eq, leb, if◌then◌else◌}
use entsoe_pipeline.Prelude.Texts.{Text}

-- A character that `s.strip()` takes off: ASCII white space.
abbrev pub is_space : ℕ → Bool
is_space c = nat_eq c 32 || ((leb 9 c && leb c 13) || (leb 28 c && leb c 31))

unfoldable pub lstrip_space : Text → Text
lstrip_space [] = []
lstrip_space (c ∷ s) = let rest = lstrip_space s in if is_space c then rest else c ∷ s

-- `s.strip()`
unfoldable pub strip_space : Text → Text
unfolding lstrip_space
strip_space s = reverse (lstrip_space (reverse (lstrip_space s)))
