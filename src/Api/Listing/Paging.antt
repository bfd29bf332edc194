-- ===== src/Api/Listing/Paging.antt =====
-- The pages of a folder put together are the folder, read in the fewest requests that show its end.
use native.Mathlib.Nat.{div-eq_of_lt, div-eq-sub-div, suc-mul, zero-mul}
use entsoe_pipeline.Prelude.{
  ℕ, zero, suc, ◌+◌, ◌*◌, ◌/◌, ◌≤◌, ◌<◌, ◌≡◌, refl, sym, ap, ◌∙◌, Option, some, List, length, map,
  take, drop, take_short, length-take, length-drop, take-append-drop, drop-drop, Text, ltb,
  Bool-cases, inl, inr, ltb→lt, arith,
}
use entsoe_pipeline.Api.Listing.Sorting.{RawItem, sort_by_name}
use entsoe_pipeline.Api.Listing.{
  Listed, listed, after_page, on_page, fetch_pages, ls_fms, folder_path, list_folder_raw_items,
}

-- `page` answers a request for page `i` of `n` items of the folder `path` with the slice of the
-- folder's entries from `i * n` on.
abbrev pub Serves : (Text → ℕ → ℕ → Option (List RawItem)) → Text → List RawItem → Type 0
Serves page path entries = (i n : ℕ) → page path i n ≡ some (take n (drop (i * n) entries))

pub next_page :
    (i n : ℕ) {A : Type 0} (xs : List A) → drop n (drop (i * n) xs) ≡ drop (suc i * n) xs
next_page i n xs = drop-drop (i * n) n xs ∙ ap (λ k. drop k xs) (sym (suc-mul i n))

module _ (page : Text → ℕ → ℕ → Option (List RawItem)) (path : Text) (entries : List RawItem)
    (size : ℕ) (serves : Serves page path entries) (positive : 0 < size) where
  last_page :
      (rest : List RawItem) (further : Listed RawItem)
      → length rest < size
      → on_page size (some (take size rest)) further ≡ listed rest (length rest / size + 1)
  last_page rest further h = rw (take_short size rest h, div-eq_of_lt h) (ground arith)

  full_page :
      (rest : List RawItem) (further : Listed RawItem)
      → size ≤ length rest
      → on_page size (some (take size rest)) further ≡ after_page (take size rest) further
  full_page rest further h = ground (arith, length-take size rest h)

  fetch_pages_from :
      (fuel i : ℕ) (rest : List RawItem)
      → drop (i * size) entries ≡ rest
      → length rest / size < fuel
      → fetch_pages page fuel path i size ≡ listed rest (length rest / size + 1)
  unfolding fetch_pages
  fetch_pages_from zero i rest at_i enough = ground arith
  fetch_pages_from (suc fuel) i rest at_i enough =
      let answer = serves i size ∙ ap (λ xs. some (take size xs)) at_i in
      elim (Bool-cases (ltb (length rest) size)) [
        | inl last ↦
            rw (answer, fetch_pages)
              (last_page rest (fetch_pages page fuel path (suc i) size)
                (ltb→lt (length rest) size last))
        | inr more ↦
            let full : size ≤ length rest = ground arith in
            let fewer = div-eq-sub-div positive full in
            let next =
              fetch_pages_from fuel (suc i) (drop size rest)
                (sym (next_page i size entries) ∙ ap (drop size) at_i)
                (rw length-drop (omega arith)) in
            rw (answer, fetch_pages)
              (full_page rest (fetch_pages page fuel path (suc i) size) full
                ∙ rw (next, take-append-drop, length-drop, fewer) (ground arith))
      ]

-- With fuel for one request per full page and one more, listing a folder gives the names of all its
-- entries, in the interface's order, in that many requests: the loop ends at the first page that is
-- not full and reads no page twice.
pub ls_fms_lem :
    (page : Text → ℕ → ℕ → Option (List RawItem)) (path : Text) (entries : List RawItem)
    (size fuel : ℕ)
    → Serves page path entries
    → 0 < size
    → length entries / size < fuel
    → ls_fms page fuel path size ≡ listed (map (λ x. x.name) entries) (length entries / size + 1)
unfolding ls_fms
ls_fms_lem page path entries size fuel serves positive enough =
    rw
      (fetch_pages_from page path entries size serves positive fuel 0 entries
        (ap (λ k. drop k entries) (zero-mul size)) enough)
      refl

-- The raw listing of a folder under a root directory is all its entries sorted by name, and the
-- number of requests that is counted is one for each full page of 1000 and one more.
pub list_folder_raw_items_lem :
    (page : Text → ℕ → ℕ → Option (List RawItem)) (folder_name root_dir : Text)
    (entries : List RawItem) (fuel : ℕ)
    → Serves page (folder_path root_dir folder_name) entries
    → length entries / 1000 < fuel
    → list_folder_raw_items page fuel folder_name root_dir
      ≡ listed (sort_by_name entries) (length entries / 1000 + 1)
unfolding list_folder_raw_items
list_folder_raw_items_lem page folder_name root_dir entries fuel serves enough =
    rw
      (fetch_pages_from page (folder_path root_dir folder_name) entries 1000 serves (omega arith)
        fuel 0 entries (ap (λ k. drop k entries) (zero-mul 1000)) enough)
      refl
