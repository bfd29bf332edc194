-- ===== src/Prelude/Dicts.antt =====
-- Python's `dict` with text keys, in insertion order. `d[k] = v` on a present key keeps its place.
use mathlib.Core.Path.{◌≡◌, refl}
use mathlib.Core.Option.{Option, none, some}
use mathlib.Core.List.{List, [], ◌∷◌}
use native.Mathlib.Omega.{arith}
use entsoe_pipeline.Prelude.Tests.{if◌then◌else◌}
use entsoe_pipeline.Prelude.Texts.{Text, ◌==◌, eq_iff}

abbrev pub Dict {ℓ} : Type ℓ → Type ℓ
Dict V = List (Text × V)

module _ {ℓ} {V : Type ℓ} where
  -- `d.get(k)`
  unfoldable pub lookup : Text → Dict V → Option V
  lookup k [] = none
  lookup k ((j, v) ∷ d) = let rest = lookup k d in if j == k then some v else rest

  pub lookup-nil : (k : Text) → lookup k [] ≡ none
  unfolding lookup
  lookup-nil k = refl

  -- `d[k] = v`
  unfoldable pub insert : Text → V → Dict V → Dict V
  insert k v [] = (k, v) ∷ []
  insert k v ((j, w) ∷ d) = let rest = insert k v d in if j == k then (j, v) ∷ d else (j, w) ∷ rest

  pub lookup-insert :
      (k j : Text) (v : V) (d : Dict V)
      → lookup j (insert k v d) ≡ (if k == j then some v else lookup j d)
  unfolding lookup insert
  lookup-insert k j v [] = refl
  lookup-insert k j v ((i, w) ∷ d) =
      ground (arith, eq_iff k j, eq_iff i k, eq_iff i j, lookup-insert k j v d)

  pub lookup-insert_self : (k : Text) (v : V) (d : Dict V) → lookup k (insert k v d) ≡ some v
  lookup-insert_self k v d = ground (arith, lookup-insert k k v d, eq_iff k k)

  -- `d.pop(k, None)`. Every entry of the key goes; a dict has at most one.
  unfoldable pub erase : Text → Dict V → Dict V
  erase k [] = []
  erase k ((j, w) ∷ d) = let rest = erase k d in if j == k then rest else (j, w) ∷ rest

  pub lookup-erase :
      (k j : Text) (d : Dict V) → lookup j (erase k d) ≡ (if k == j then none else lookup j d)
  unfolding lookup erase
  lookup-erase k j [] = ground arith
  lookup-erase k j ((i, w) ∷ d) =
      ground (arith, eq_iff k j, eq_iff i k, eq_iff i j, lookup-erase k j d)

  pub erase_absent : (k : Text) (d : Dict V) → lookup k d ≡ none → erase k d ≡ d
  unfolding lookup erase
  erase_absent k [] h = refl
  erase_absent k ((i, w) ∷ d) h = ground (arith, erase_absent k d)

  pub erase-insert :
      (k : Text) (v : V) (d : Dict V) → lookup k d ≡ none → erase k (insert k v d) ≡ d
  unfolding lookup erase insert
  erase-insert k v [] h = ground (arith, eq_iff k k)
  erase-insert k v ((i, w) ∷ d) h = ground (arith, erase-insert k v d)
