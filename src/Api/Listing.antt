-- ===== src/Api/Listing.antt =====
-- src/entsoe_pipeline/api/ls_fms.py: listing a remote folder page by page. What the `listFolder`
-- interface answers is a parameter, `page path page_index page_size`; `none` is the exception that is
-- left after the retries of `_fetch_folder_page`.
pub mod Sorting
pub mod Paging
pub mod Recursion
use entsoe_pipeline.Prelude.{
  ℕ, zero, suc, ◌+◌, ◌≡◌, Bool, Option, none, some, List, [], ◌∷◌, ◌++◌, length, map, Text, text,
  ends_with, ltb, if◌then◌else◌,
}
use entsoe_pipeline.Api.Listing.Sorting.{RawItem, sort_by_name}

-- The items and the number of requests; the exception of a failed page and the number of requests; or
-- no more fuel, which `Paging` shows not to happen.
pub data Listed {ℓ} (A : Type ℓ) : Type ℓ where
  listed : List A → ℕ → Listed A
  api_error : ℕ → Listed A
  out_of_fuel : Listed A

abbrev pub after_page : List RawItem → Listed RawItem → Listed RawItem
after_page items (listed rest calls) = listed (items ++ rest) (suc calls)
after_page items (api_error calls) = api_error (suc calls)
after_page items out_of_fuel = out_of_fuel

abbrev pub on_page : ℕ → Option (List RawItem) → Listed RawItem → Listed RawItem
on_page page_size none rest = api_error 1
on_page page_size (some items) rest =
    if ltb (length items) page_size then listed items 1 else after_page items rest

abbrev pub with_items {ℓ} : {B : Type ℓ} → (List RawItem → List B) → Listed RawItem → Listed B
with_items f (listed items calls) = listed (f items) calls
with_items f (api_error calls) = api_error calls
with_items f out_of_fuel = out_of_fuel

unfoldable pub folder_path : Text → Text → Text
folder_path root_dir [] = b'/' ∷ (root_dir ++ text "/")
folder_path root_dir (c ∷ folder_name) =
    if ends_with (c ∷ folder_name) (text ".csv")
    then b'/' ∷ (root_dir ++ (b'/' ∷ c ∷ folder_name))
    else b'/' ∷ (root_dir ++ (b'/' ∷ c ∷ (folder_name ++ text "/")))

module _ (page : Text → ℕ → ℕ → Option (List RawItem)) where
  -- The `while True` loop, from page `page_index` on.
  unfoldable pub fetch_pages : ℕ → Text → ℕ → ℕ → Listed RawItem
  fetch_pages zero path page_index page_size = out_of_fuel
  fetch_pages (suc fuel) path page_index page_size =
      on_page page_size (page path page_index page_size)
        (fetch_pages fuel path (suc page_index) page_size)

  unfoldable pub ls_fms : ℕ → Text → ℕ → Listed Text
  unfolding fetch_pages
  ls_fms fuel path page_size = with_items (map (λ x. x.name)) (fetch_pages fuel path 0 page_size)

  unfoldable pub list_folder_raw_items : ℕ → Text → Text → Listed RawItem
  unfolding fetch_pages folder_path sort_by_name
  list_folder_raw_items fuel folder_name root_dir =
      with_items sort_by_name (fetch_pages fuel (folder_path root_dir folder_name) 0 1000)
