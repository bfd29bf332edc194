-- ===== src/Crawler/Folder.antt =====
-- src/entsoe_pipeline/fms_metadata/utils/crawler.py, utils/transformer.py (map_raw_fms_item) and
-- core/metadata_crawlers_common.py (fetch_root_files_mapping): the crawl of one folder, over the
-- answers `page path page_index page_size` of the FMS.
pub mod Complete
use entsoe_pipeline.Prelude.{
  ℕ, Bool, Option, none, some, List, [], ◌∷◌, map, Text, Dict, lookup, insert, if◌then◌else◌,
}
use entsoe_pipeline.Io.Fingerprint.{calculate_idempotency_hash}
use entsoe_pipeline.Io.Remote.{ends_with_any}
use entsoe_pipeline.Api.Listing.Sorting.{RawItem}
use entsoe_pipeline.Api.Listing.{Listed, listed, api_error, out_of_fuel, list_folder_raw_items}
use entsoe_pipeline.Api.Listing.Recursion.{list_folder_raw_items_recursive}
use entsoe_pipeline.Delta.Crawl.{CrawledFile}

-- `{item["name"]: item for item in items}`
unfoldable pub items_by_name : List RawItem → Dict RawItem → Dict RawItem
items_by_name [] items = items
items_by_name (item ∷ rest) items = items_by_name rest (insert item.name item items)

abbrev pub root_files : Listed RawItem → Dict RawItem
root_files (listed items calls) = items_by_name items []
root_files (api_error calls) = []
root_files out_of_fuel = []

module _ (xxh3_128 : Text → Text) where
  unfoldable pub map_raw_fms_item : RawItem → CrawledFile
  map_raw_fms_item item = record {
    file_id = item.file_id;
    name = item.name;
    original_bytes = item.original_size;
    compressed_bytes = item.size;
    last_updated = item.last_updated;
    xxhash = calculate_idempotency_hash xxh3_128 item.name item.original_size item.last_updated;
  }

  -- A root file is not asked for again: its item is that of the root's listing.
  abbrev pub root_file : Option RawItem → List CrawledFile
  root_file none = []
  root_file (some item) = map_raw_fms_item item ∷ []

  abbrev pub mapped : Listed RawItem → Option (List CrawledFile)
  mapped (listed items calls) = some (map map_raw_fms_item items)
  mapped (api_error calls) = none
  mapped out_of_fuel = none

  module _ (page : Text → ℕ → ℕ → Option (List RawItem)) (pages depth : ℕ) where
    unfoldable pub fetch_root_files_mapping : Text → Dict RawItem
    unfolding items_by_name list_folder_raw_items
    fetch_root_files_mapping root_dir = root_files (list_folder_raw_items page pages [] root_dir)

    -- `none` is the exception of a listing.
    unfoldable pub crawl_metadata_folder :
        List Text → Dict RawItem → Text → Text → Option (List CrawledFile)
    unfolding map_raw_fms_item list_folder_raw_items_recursive ends_with_any lookup
    crawl_metadata_folder extensions root_files_by_name root_dir folder =
        if ends_with_any folder extensions
        then some (root_file (lookup folder root_files_by_name))
        else mapped (list_folder_raw_items_recursive page folder root_dir pages depth [])
