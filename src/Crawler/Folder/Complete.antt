-- ===== src/Crawler/Folder/Complete.antt =====
-- The crawl of a directory has all its files.
use entsoe_pipeline.Prelude.{
  ℕ, suc, ◌/◌, ◌<◌, ◌≡◌, ap, false, Option, some, List, [], length, map, Text, Dict,
}
use entsoe_pipeline.Io.Remote.{ends_with_any}
use entsoe_pipeline.Api.Listing.Sorting.{RawItem, IsSorted}
use entsoe_pipeline.Api.Listing.Paging.{Serves}
use entsoe_pipeline.Api.Listing.Recursion.{recursive_path}
use entsoe_pipeline.Api.Listing.Recursion.Gather.{gather, SameFiles}
use entsoe_pipeline.Api.Listing.Recursion.Complete.{IsBounded, list_folder_raw_items_recursive_lem}
use entsoe_pipeline.Crawler.Folder.{map_raw_fms_item, mapped, crawl_metadata_folder}

-- Where the FMS serves the folders below a directory and there is fuel for their depth and pages, the
-- crawl of the directory returns a record for each file below it and no other, sorted by relative
-- path: the files of any one path are those that the folders hold, in their order.
pub crawl_metadata_folder_lem :
    (xxh3_128 : Text → Text) (page : Text → ℕ → ℕ → Option (List RawItem)) (pages depth : ℕ)
    (extensions : List Text) (root_files_by_name : Dict RawItem) (root_dir folder : Text)
    (entries : Text → List RawItem)
    → ((s : Text) → Serves page (recursive_path root_dir folder s) (entries s))
    → ((s : Text) → length (entries s) / 1000 < pages)
    → IsBounded entries (suc depth) []
    → ends_with_any folder extensions ≡ false
    → (xs : List RawItem) × (crawl_metadata_folder xxh3_128 page pages
          (suc depth)
          extensions
          root_files_by_name
          root_dir
          folder
        ≡ some (map (map_raw_fms_item xxh3_128) xs))
      × IsSorted xs
      × SameFiles xs (gather entries (suc depth) [])
unfolding crawl_metadata_folder
crawl_metadata_folder_lem xxh3_128 page pages depth extensions roots root_dir folder entries serves
      enough bounded not_file =
    let (xs, calls, e, sorted, same) =
      list_folder_raw_items_recursive_lem page folder root_dir entries pages depth [] serves enough
        bounded in
    (xs, rw not_file (ap (mapped xxh3_128) e), sorted, same)
