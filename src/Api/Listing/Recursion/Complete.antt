-- ===== src/Api/Listing/Recursion/Complete.antt =====
-- The recursive listing has every file below the folder, once, under its path.
use mathlib.Core.Path.{subst}
use native.Mathlib.Nat.{zero-mul}
use entsoe_pipeline.Prelude.{
  ◌≤◌, leb, leb→le, length-take_le, drop_all, length-take, length-drop, take-append-drop, ℕ, zero,
  suc, ◌*◌, ◌/◌, ◌<◌, ◌≡◌, refl, sym, ap, ◌∙◌, true, false, Option, some, List, [], ◌∷◌, length,
  take, drop, All, Text, strip, ltb, Bool-cases, inl, inr, arith,
}
use entsoe_pipeline.Api.Listing.Sorting.{RawItem, sort_by_name, IsSorted, sort_by_name_lem}
use entsoe_pipeline.Api.Listing.{Listed, listed, api_error, out_of_fuel, with_items}
use entsoe_pipeline.Api.Listing.Paging.{Serves, next_page}
use entsoe_pipeline.Api.Listing.Recursion.{
  recursive_path, within, visit, on_items, recursive_pages, list_folder_raw_items_recursive,
}
use entsoe_pipeline.Api.Listing.Recursion.Gather.{
  gather_items, gather, SameFiles, Lists, IsListed, page-Lists, visit-Lists, gather_items-append,
  All-split,
}

full_take : (n : ℕ) (xs : List RawItem) → ltb (length (take n xs)) n ≡ false → n ≤ length xs
full_take n xs e = ground (arith, length-take_le n xs)

short_take : (n : ℕ) (xs : List RawItem) → ltb (length (take n xs)) n ≡ true → length xs ≤ n
short_take n xs e = elim (Bool-cases (leb n (length xs))) [
  | inl full ↦ ground (arith, length-take n xs (leb→le n (length xs) full))
  | inr less ↦ ground arith
]

fewer_pages :
    (rest : List RawItem) (fuel : ℕ)
    → length rest / 1000 < suc fuel
    → ltb (length (take 1000 rest)) 1000 ≡ false
    → length (drop 1000 rest) / 1000 < fuel
fewer_pages rest fuel enough e =
    let full = full_take 1000 rest e in rw length-drop (omega (arith, enough, full))

drop_short : (rest : List RawItem) → ltb (length (take 1000 rest)) 1000 ≡ true → drop 1000 rest ≡ []
drop_short rest e = drop_all 1000 rest (short_take 1000 rest e)

module _ (page : Text → ℕ → ℕ → Option (List RawItem)) (folder_name root_dir : Text)
    (entries : Text → List RawItem)
    (serves : (s : Text) → Serves page (recursive_path root_dir folder_name s) (entries s)) where
  module _ (nested : Text → Listed RawItem) (ref : Text → List RawItem) (sub : Text) where
    one_page :
        (rest : List RawItem) (further : Listed RawItem)
        → All (IsListed nested ref sub) rest
        → (ltb (length (take 1000 rest)) 1000 ≡ false
            → Lists further (gather_items entries ref sub (drop 1000 rest)))
        → (ltb (length (take 1000 rest)) 1000 ≡ true → drop 1000 rest ≡ [])
        → Lists
            (on_items page folder_name root_dir nested sub (some (take 1000 rest)) further)
            (gather_items entries ref sub rest)
    one_page rest further h more none_left =
        let (first, _) =
          All-split (IsListed nested ref sub) (take 1000 rest) (drop 1000 rest)
            (rw take-append-drop h) in
        let both =
          page-Lists (ltb (length (take 1000 rest)) 1000) (visit nested sub (take 1000 rest))
            further (gather_items entries ref sub (take 1000 rest))
            (gather_items entries ref sub (drop 1000 rest))
            (visit-Lists entries nested ref sub (take 1000 rest) first) more
            (λ e. ap (gather_items entries ref sub) (none_left e)) in
        subst
          (Lists (on_items page folder_name root_dir nested sub (some (take 1000 rest)) further))
          (sym (gather_items-append entries nested ref sub (take 1000 rest) (drop 1000 rest))
            ∙ ap (gather_items entries ref sub) (take-append-drop 1000 rest))
          both

    recursive_pages-Lists :
        (fuel i : ℕ) (rest : List RawItem)
        → drop (i * 1000) (entries sub) ≡ rest
        → length rest / 1000 < fuel
        → All (IsListed nested ref sub) rest
        → Lists
            (recursive_pages page folder_name root_dir nested fuel sub i)
            (gather_items entries ref sub rest)
    unfolding recursive_pages
    recursive_pages-Lists zero i rest at_i enough h = ground arith
    recursive_pages-Lists (suc fuel) i rest at_i enough h =
        let answer = serves sub i 1000 ∙ ap (λ xs. some (take 1000 xs)) at_i in
        let (_, below) =
          All-split (IsListed nested ref sub) (take 1000 rest) (drop 1000 rest)
            (rw take-append-drop h) in
        let further = recursive_pages page folder_name root_dir nested fuel sub (suc i) in
        rw (answer, recursive_pages)
          (one_page rest further h
            (λ e.
              recursive_pages-Lists fuel (suc i) (drop 1000 rest)
                (sym (next_page i 1000 (entries sub)) ∙ ap (drop 1000) at_i)
                (fewer_pages rest fuel enough e) below)
            (drop_short rest))

-- `depth` bounds how deep folders lie below `sub`.
abbrev pub IsBounded : (Text → List RawItem) → ℕ → Text → Type 0
IsBounded entries zero sub = ⊥
IsBounded entries (suc depth) sub =
    All
      (λ item. item.is_folder ≡ true → IsBounded entries depth (strip b'/' (within sub item.name)))
      (entries sub)

abbrev items_of : Listed RawItem → List RawItem
items_of (listed xs calls) = xs
items_of (api_error calls) = []
items_of out_of_fuel = []

sorted-Lists :
    (r : Listed RawItem) (ys : List RawItem) → Lists r ys → Lists (with_items sort_by_name r) ys
sorted-Lists r ys (xs, calls, e, same) =
    (sort_by_name xs, calls, rw e refl, λ n. (sort_by_name_lem xs n).1 ∙ same n)

with_items-IsSorted :
    (r : Listed RawItem) (xs : List RawItem) (calls : ℕ)
    → with_items sort_by_name r ≡ listed xs calls
    → IsSorted xs
with_items-IsSorted (listed ys m) xs calls e =
    subst IsSorted (ap items_of e) (sort_by_name_lem ys []).0
with_items-IsSorted (api_error m) xs calls e = absurd (cc e)
with_items-IsSorted out_of_fuel xs calls e = absurd (cc e)

All-map :
    (P Q : RawItem → Type 0) (items : List RawItem)
    → ((x : RawItem) → P x → Q x)
    → All P items
    → All Q items
All-map P Q [] f h = tt
All-map P Q (x ∷ items) f h = (f x h.0, All-map P Q items f h.1)

module _ (page : Text → ℕ → ℕ → Option (List RawItem)) (folder_name root_dir : Text)
    (entries : Text → List RawItem) (pages : ℕ)
    (serves : (s : Text) → Serves page (recursive_path root_dir folder_name s) (entries s))
    (enough : (s : Text) → length (entries s) / 1000 < pages) where
  recursive-Lists :
      (depth : ℕ) (sub : Text)
      → IsBounded entries depth sub
      → Lists
          (list_folder_raw_items_recursive page folder_name root_dir pages depth sub)
          (gather entries depth sub)
  unfolding list_folder_raw_items_recursive gather
  recursive-Lists zero sub h = absurd h
  recursive-Lists (suc depth) sub h =
      let nested = list_folder_raw_items_recursive page folder_name root_dir pages depth in
      let children =
        All-map
          (λ item.
            item.is_folder ≡ true → IsBounded entries depth (strip b'/' (within sub item.name)))
          (IsListed nested (gather entries depth) sub) (entries sub)
          (λ item b e. recursive-Lists depth (strip b'/' (within sub item.name)) (b e)) h in
      sorted-Lists (recursive_pages page folder_name root_dir nested pages sub 0)
        (gather entries (suc depth) sub)
        (recursive_pages-Lists page folder_name root_dir entries serves nested
          (gather entries depth) sub pages 0 (entries sub)
          (ap (λ k. drop k (entries sub)) (zero-mul 1000)) (enough sub) children)

-- With fuel for the depth of the folders and for one more page than each has full ones, the recursive
-- listing returns: its files are sorted by name, and those of each name are exactly the files that
-- lie below the folder under that relative path, in the order in which the folders hold them.
pub list_folder_raw_items_recursive_lem :
    (page : Text → ℕ → ℕ → Option (List RawItem)) (folder_name root_dir : Text)
    (entries : Text → List RawItem) (pages depth : ℕ) (sub : Text)
    → ((s : Text) → Serves page (recursive_path root_dir folder_name s) (entries s))
    → ((s : Text) → length (entries s) / 1000 < pages)
    → IsBounded entries (suc depth) sub
    → (xs : List RawItem) × (calls : ℕ) × (list_folder_raw_items_recursive page folder_name root_dir
          pages
          (suc depth)
          sub
        ≡ listed xs calls)
      × IsSorted xs
      × SameFiles xs (gather entries (suc depth) sub)
unfolding list_folder_raw_items_recursive
list_folder_raw_items_recursive_lem page folder_name root_dir entries pages depth sub serves enough
      bounded =
    let (xs, calls, e, same) =
      recursive-Lists page folder_name root_dir entries pages serves enough (suc depth) sub
        bounded in
    (
      xs,
      calls,
      e,
      with_items-IsSorted
          (recursive_pages page folder_name root_dir
            (list_folder_raw_items_recursive page folder_name root_dir pages depth) pages sub 0)
          xs calls e,
      same,
    )
