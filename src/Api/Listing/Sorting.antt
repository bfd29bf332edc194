-- ===== src/Api/Listing/Sorting.antt =====
-- `all_items.sort(key=lambda x: x.get("name", ""))`: Python's stable sort by code points.
use entsoe_pipeline.Prelude.{
  ℕ, ◌≡◌, refl, ◌∙◌, Bool, true, false, List, [], ◌∷◌, filter, All, Text, ◌==◌, eq_iff,
  if◌then◌else◌, arith, Bool-cases, inl, inr,
}
use entsoe_pipeline.Prelude.Texts.Order.{text_le, text_le_trans, text_le_total, text_le_refl}

-- One entry of `contentItemList`. `is_folder` is `type == "Folder"`; a key that is
-- absent reads as the default that the code gives.
pub record RawItem : Type 0 where
  pub name : Text
  pub is_folder : Bool
  pub size : ℕ
  pub original_size : ℕ
  pub last_updated : Text
  pub file_id : Text

-- Places an item before the first one that is not smaller, so that equal names keep their order.
unfoldable pub place : RawItem → List RawItem → List RawItem
place x [] = x ∷ []
place x (y ∷ ys) = let rest = place x ys in if text_le x.name y.name then x ∷ y ∷ ys else y ∷ rest

unfoldable pub sort_by_name : List RawItem → List RawItem
unfolding place
sort_by_name [] = []
sort_by_name (x ∷ xs) = place x (sort_by_name xs)

-- Every item comes before all that follow it, by name.
abbrev pub IsSorted : List RawItem → Type 0
IsSorted [] = Unit
IsSorted (x ∷ xs) = All (λ y. text_le x.name y.name ≡ true) xs × IsSorted xs

All-place :
    (s : Text) (x : RawItem) (ys : List RawItem)
    → text_le s x.name ≡ true
    → All (λ y. text_le s y.name ≡ true) ys
    → All (λ y. text_le s y.name ≡ true) (place x ys)
unfolding place
All-place s x [] h hs = (h, tt)
All-place s x (y ∷ ys) h hs = elim (Bool-cases (text_le x.name y.name)) [
  | inl e ↦ rw (e, place) (h, hs)
  | inr e ↦ rw (e, place) (hs.0, All-place s x ys h hs.1)
]

All-le :
    (s t : Text) (ys : List RawItem)
    → text_le s t ≡ true
    → All (λ y. text_le t y.name ≡ true) ys
    → All (λ y. text_le s y.name ≡ true) ys
All-le s t [] h hs = tt
All-le s t (y ∷ ys) h hs = (text_le_trans s t y.name h hs.0, All-le s t ys h hs.1)

place-IsSorted : (x : RawItem) (ys : List RawItem) → IsSorted ys → IsSorted (place x ys)
unfolding place
place-IsSorted x [] h = (tt, tt)
place-IsSorted x (y ∷ ys) h = elim (Bool-cases (text_le x.name y.name)) [
  | inl e ↦ rw (e, place) ((e, All-le x.name y.name ys e h.0), h)
  | inr e ↦
      rw (e, place)
        (All-place y.name x ys (text_le_total x.name y.name e) h.0, place-IsSorted x ys h.1)
]

pub sort_by_name-IsSorted : (xs : List RawItem) → IsSorted (sort_by_name xs)
unfolding sort_by_name
sort_by_name-IsSorted [] = tt
sort_by_name-IsSorted (x ∷ xs) = place-IsSorted x (sort_by_name xs) (sort_by_name-IsSorted xs)

text_le_same : (s t n : Text) → text_le s t ≡ false → (s == n) ≡ true → (t == n) ≡ false
text_le_same s t n h e = ground (arith, eq_iff s n, eq_iff t n, text_le_refl s)

-- Of the items of any one name, none is lost, added or moved past another.
filter-place :
    (n : Text) (x : RawItem) (ys : List RawItem)
    → filter (λ y. y.name == n) (place x ys) ≡ filter (λ y. y.name == n) (x ∷ ys)
unfolding place
filter-place n x [] = refl
filter-place n x (y ∷ ys) = elim (Bool-cases (text_le x.name y.name)) [
  | inl e ↦ rw (e, place) refl
  | inr e ↦ rw (e, place) (ground (arith, filter-place n x ys, text_le_same x.name y.name n e))
]

-- The items sorted by name: each comes before all that follow it, and those of any one name are the
-- ones of the list, in its order.
pub sort_by_name_lem :
    (xs : List RawItem) (n : Text)
    → IsSorted (sort_by_name xs)
      × (filter (λ y. y.name == n) (sort_by_name xs) ≡ filter (λ y. y.name == n) xs)
unfolding sort_by_name
sort_by_name_lem xs n = (sort_by_name-IsSorted xs, kept xs)
  where
    kept :
        (ys : List RawItem)
        → filter (λ y. y.name == n) (sort_by_name ys) ≡ filter (λ y. y.name == n) ys
    kept [] = refl
    kept (y ∷ ys) = filter-place n y (sort_by_name ys) ∙ ground (arith, kept ys)
