-- ===== src/Api/Listing/Recursion/Gather.antt =====
-- What the items of a folder contribute to a recursive listing.
use mathlib.Core.List.{append_assoc}
use entsoe_pipeline.Prelude.{
  ℕ, zero, suc, ◌+◌, ◌≡◌, refl, sym, ap, ◌∙◌, Bool, true, false, List, [], ◌∷◌, ◌++◌, filter,
  filter-append, All, Text, ◌==◌, strip, if◌then◌else◌,
}
use entsoe_pipeline.Api.Listing.Sorting.{RawItem}
use entsoe_pipeline.Api.Listing.{Listed, listed}
use entsoe_pipeline.Api.Listing.Recursion.{within, then_listed, renamed, visit}

-- The files below a folder, from what each folder holds; `depth` bounds the folders.
module _ (entries : Text → List RawItem) where
  abbrev pub gather_items : (Text → List RawItem) → Text → List RawItem → List RawItem
  gather_items nested sub [] = []
  gather_items nested sub (item ∷ items) =
      (if item.is_folder then nested (strip b'/' (within sub item.name)) else renamed sub item ∷ [])
      ++ gather_items nested sub items

  unfoldable pub gather : ℕ → Text → List RawItem
  gather zero sub = []
  gather (suc depth) sub = gather_items (gather depth) sub (entries sub)

-- Of the items of each name, the same ones in the same order.
abbrev pub SameFiles : List RawItem → List RawItem → Type 0
SameFiles xs ys = (n : Text) → filter (λ y. y.name == n) xs ≡ filter (λ y. y.name == n) ys

abbrev pub Lists : Listed RawItem → List RawItem → Type 0
Lists r ys = (xs : List RawItem) × (calls : ℕ) × (r ≡ listed xs calls) × SameFiles xs ys

pub then_listed-Lists :
    (r s : Listed RawItem) (ys zs : List RawItem)
    → Lists r ys
    → Lists s zs
    → Lists (then_listed r s) (ys ++ zs)
then_listed-Lists r s ys zs (xs, m, e, same) (us, n, k, also) = (
  xs ++ us,
  m + n,
  rw (e, k) refl,
  (λ name.
      filter-append (λ y. y.name == name) xs us
      ∙ rw (same name, also name) (sym (filter-append (λ y. y.name == name) ys zs))),
)

pub Lists-none : (calls : ℕ) → Lists (listed [] calls) []
Lists-none calls = ([], calls, refl, λ n. refl)

pub pick-Lists :
    (b : Bool) (r q s : Listed RawItem) (ys zs us : List RawItem)
    → (b ≡ true → Lists r ys)
    → Lists q zs
    → Lists s us
    → Lists (if b then then_listed r s else then_listed q s) ((if b then ys else zs) ++ us)
pick-Lists true r q s ys zs us hr hq hs = then_listed-Lists r s ys us (hr refl) hs
pick-Lists false r q s ys zs us hr hq hs = then_listed-Lists q s zs us hq hs

-- The request of a page, what it gives, and what follows it.
pub page-Lists :
    (b : Bool) (v further : Listed RawItem) (ys zs : List RawItem)
    → Lists v ys
    → (b ≡ false → Lists further zs)
    → (b ≡ true → zs ≡ [])
    → Lists
        (then_listed (listed [] 1) (then_listed v (if b then listed [] 0 else further)))
        (ys ++ zs)
page-Lists true v further ys zs hv hf none_left =
    then_listed-Lists (listed [] 1) (then_listed v (listed [] 0)) [] (ys ++ zs) (Lists-none 1)
      (rw (none_left refl) (then_listed-Lists v (listed [] 0) ys [] hv (Lists-none 0)))
page-Lists false v further ys zs hv hf none_left =
    then_listed-Lists (listed [] 1) (then_listed v further) [] (ys ++ zs) (Lists-none 1)
      (then_listed-Lists v further ys zs hv (hf refl))

-- What `nested` lists of a folder item is what `ref` has for it.
abbrev pub IsListed : (Text → Listed RawItem) → (Text → List RawItem) → Text → RawItem → Type 0
IsListed nested ref sub item =
    item.is_folder ≡ true
    → Lists (nested (strip b'/' (within sub item.name))) (ref (strip b'/' (within sub item.name)))

module _ (entries : Text → List RawItem) (nested : Text → Listed RawItem)
    (ref : Text → List RawItem) (sub : Text) where
  pub visit-Lists :
      (items : List RawItem)
      → All (IsListed nested ref sub) items
      → Lists (visit nested sub items) (gather_items entries ref sub items)
  unfolding visit
  visit-Lists [] h = Lists-none 0
  visit-Lists (item ∷ items) h =
      let child = strip b'/' (within sub item.name) in
      pick-Lists item.is_folder (nested child) (listed (renamed sub item ∷ []) 0)
        (visit nested sub items) (ref child) (renamed sub item ∷ [])
        (gather_items entries ref sub items) h.0 (renamed sub item ∷ [], 0, refl, λ n. refl)
        (visit-Lists items h.1)

  pub gather_items-append :
      (xs ys : List RawItem)
      → gather_items entries ref sub (xs ++ ys)
        ≡ gather_items entries ref sub xs ++ gather_items entries ref sub ys
  gather_items-append [] ys = refl
  gather_items-append (x ∷ xs) ys =
      ap
        (λ zs.
          (if x.is_folder then ref (strip b'/' (within sub x.name)) else renamed sub x ∷ []) ++ zs)
        (gather_items-append xs ys)
      ∙ sym (
          append_assoc
            (if x.is_folder then ref (strip b'/' (within sub x.name)) else renamed sub x ∷ [])
            (gather_items entries ref sub xs) (gather_items entries ref sub ys))

pub All-split :
    (P : RawItem → Type 0) (xs ys : List RawItem) → All P (xs ++ ys) → All P xs × All P ys
All-split P [] ys h = (tt, h)
All-split P (x ∷ xs) ys h = let (a, b) = All-split P xs ys h.1 in ((h.0, a), b)
