-- ===== src/Api/Listing/Recursion.antt =====
-- `list_folder_raw_items_recursive`: the files of a folder and of all folders below it, with their
-- paths relative to it. Fuel bounds the depth of the folders, and the pages of each.
pub mod Gather
pub mod Complete
use entsoe_pipeline.Prelude.{
  ℕ, zero, suc, ◌+◌, Bool, Option, none, some, List, [], ◌∷◌, ◌++◌, length, Text, text, strip,
  replace_doubled, ltb, if◌then◌else◌,
}
use entsoe_pipeline.Api.Listing.Sorting.{RawItem, sort_by_name}
use entsoe_pipeline.Api.Listing.{Listed, listed, api_error, out_of_fuel, with_items}

-- The path of the request for a folder below `folder_name`.
unfoldable pub recursive_path : Text → Text → Text → Text
recursive_path root_dir folder_name [] =
    replace_doubled b'/' (b'/' ∷ root_dir ++ (b'/' ∷ folder_name ++ text "/"))
recursive_path root_dir folder_name (c ∷ subpath) =
    replace_doubled b'/'
      (b'/' ∷ root_dir ++ (b'/' ∷ folder_name ++ (b'/' ∷ c ∷ subpath ++ text "/")))

abbrev pub within : Text → Text → Text
within [] name = name
within (c ∷ subpath) name = c ∷ subpath ++ (b'/' ∷ name)

-- One listing after another; an error ends both.
abbrev pub then_listed : Listed RawItem → Listed RawItem → Listed RawItem
then_listed (listed xs m) (listed ys n) = listed (xs ++ ys) (m + n)
then_listed (listed xs m) (api_error n) = api_error (m + n)
then_listed (listed xs m) out_of_fuel = out_of_fuel
then_listed (api_error m) other = api_error m
then_listed out_of_fuel other = out_of_fuel

abbrev pub renamed : Text → RawItem → RawItem
renamed current_subpath item = record item { name = within current_subpath item.name }

-- The loop over the items of a page; `nested` lists a folder below.
unfoldable pub visit : (Text → Listed RawItem) → Text → List RawItem → Listed RawItem
visit nested current_subpath [] = listed [] 0
visit nested current_subpath (item ∷ items) =
    let rest = visit nested current_subpath items in
    if item.is_folder
    then then_listed (nested (strip b'/' (within current_subpath item.name))) rest
    else then_listed (listed (renamed current_subpath item ∷ []) 0) rest

module _ (page : Text → ℕ → ℕ → Option (List RawItem)) (folder_name root_dir : Text) where
  abbrev pub on_items :
      (Text → Listed RawItem) → Text → Option (List RawItem) → Listed RawItem → Listed RawItem
  on_items nested current_subpath none rest = api_error 1
  on_items nested current_subpath (some items) rest = then_listed (listed [] 1) (
      then_listed (visit nested current_subpath items)
        (if ltb (length items) 1000 then listed [] 0 else rest))

  unfoldable pub recursive_pages : (Text → Listed RawItem) → ℕ → Text → ℕ → Listed RawItem
  unfolding visit recursive_path
  recursive_pages nested zero current_subpath page_index = out_of_fuel
  recursive_pages nested (suc fuel) current_subpath page_index =
      on_items nested current_subpath
        (page (recursive_path root_dir folder_name current_subpath) page_index 1000)
        (recursive_pages nested fuel current_subpath (suc page_index))

  unfoldable pub list_folder_raw_items_recursive : ℕ → ℕ → Text → Listed RawItem
  unfolding recursive_pages sort_by_name
  list_folder_raw_items_recursive pages zero current_subpath = out_of_fuel
  list_folder_raw_items_recursive pages (suc depth) current_subpath =
      with_items sort_by_name
        (recursive_pages (list_folder_raw_items_recursive pages depth) pages current_subpath 0)
