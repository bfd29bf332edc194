-- ===== src/Tests/Deltas.antt =====
-- fms_metadata/: a log with a known file, a new one and a newer one; the crawl of a folder of two
-- leaves.
use entsoe_pipeline.Prelude.{
  ◌≡◌, refl, Bool, true, false, ◌||◌, some, List, [], ◌∷◌, ◌++◌, length, Text, text, ◌==◌, lookup,
  insert, contains, split, strip, lower, ends_with, has_substring, if◌then◌else◌,
}
use entsoe_pipeline.Delta.Names.{resolve_exact_fms_folder, strip_extension}
use entsoe_pipeline.Delta.Scan.{
  LogRow, LogRecord, Known, never_crawled, folder_crawled_at, leaf_of, is_stale,
  dirty_folders_to_leafs,
}
use entsoe_pipeline.Delta.Scan.Dirty.{is_marked, calls_for}
use entsoe_pipeline.Delta.Scan.Missed.{
  db_files, std_records, oce_records, uncrawled, dirty_folders_to_leafs_std,
  dirty_folders_to_leafs_oce, dirty_folders_to_leafs_sound, dirty_folders_to_leafs_uncrawled,
}
use entsoe_pipeline.Delta.Crawl.{
  CrawledFile, crawled, crawl_error, Services, State, Step, going, stopped, parent_path,
  crawl_parent,
}
use entsoe_pipeline.Delta.Crawl.Files.{belongs, delivers, all_succeed}
use entsoe_pipeline.Delta.Crawl.Totals.{
  begun_row, counted_row, crawl_parent_row, crawl_parent_files,
}

abbrev load : Text
load = text "Load_R3"

abbrev oce : Text
oce = text "OfferedTransferCapacitiesContinuousEvolution_11.1_r3"

abbrev known : Known
known = record {
  active_folders = load ∷ oce ∷ text "New_R3" ∷ [];
  file_rows = (text "2026_01_Load_R3.csv", some 5) ∷ (text "2026_02_Load_R3.csv", some 6) ∷ [];
  folder_rows =
      (text "/TP_export/Load_R3/", some 1)
      ∷ (text "/TP_export/OfferedTransferCapacitiesContinuousEvolution_11.1_r3/", some 1)
      ∷ [];
}

abbrev known_file : LogRecord
known_file = record {
  file_name = text "2026_01_Load_R3.csv";
  folder_name = load;
  max_update_time = 9;
}

abbrev newer_file : LogRecord
newer_file = record {
  file_name = text "2026_02_Load_R3.csv";
  folder_name = load;
  max_update_time = 8;
}

abbrev std_log : List LogRow
std_log =
    record { file_name = text "2026_02_Load_R3.csv"; folder_name = []; max_update_time = some 8 }
    ∷ record { file_name = text "2026_01_Load_R3.csv"; folder_name = []; max_update_time = some 5 }
    ∷ []

abbrev up_to_date_file : LogRecord
up_to_date_file = record {
  file_name = text "2026_01_Load_R3.csv";
  folder_name = load;
  max_update_time = 5;
}

abbrev oce_file : LogRecord
oce_file = record {
  file_name = text "2026_07_08_HU_SK_x.csv";
  folder_name = oce;
  max_update_time = 9;
}

abbrev oce_log : List LogRow
oce_log =
    record {
      file_name = text "2026_07_08_HU_SK_x.csv";
      folder_name = oce;
      max_update_time = some 9;
    }
    ∷ []

std_log_records : std_records known std_log ≡ [] ++ (newer_file ∷ up_to_date_file ∷ [])
unfolding dirty_folders_to_leafs ◌==◌ split strip lookup insert contains lower ends_with
    has_substring
std_log_records = refl

newer_is_stale : is_stale (db_files known) newer_file ≡ true
unfolding dirty_folders_to_leafs ◌==◌ split strip lookup insert contains lower ends_with
    has_substring strip_extension resolve_exact_fms_folder
newer_is_stale = refl

dirty_folders_to_leafs_std_example :
    is_marked (dirty_folders_to_leafs known std_log oce_log) load (leaf_of newer_file) ≡ true
dirty_folders_to_leafs_std_example =
    dirty_folders_to_leafs_std known std_log oce_log [] newer_file (up_to_date_file ∷ [])
      std_log_records refl newer_is_stale

oce_log_records : oce_records known oce_log ≡ [] ++ (oce_file ∷ [])
unfolding dirty_folders_to_leafs ◌==◌ split strip lookup insert contains lower ends_with
    has_substring
oce_log_records = refl

oce_is_stale : is_stale (db_files known) oce_file ≡ true
unfolding dirty_folders_to_leafs ◌==◌ split strip lookup insert contains lower ends_with
    has_substring strip_extension resolve_exact_fms_folder
oce_is_stale = refl

oce_leaf :
    leaf_of oce_file
    ≡ text "OfferedTransferCapacitiesContinuousEvolution_11.1_r3/2026_07/2026_07_08/HU"
unfolding dirty_folders_to_leafs ◌==◌ split strip lookup insert contains lower ends_with
    has_substring strip_extension resolve_exact_fms_folder
oce_leaf = refl

oce_marked : is_marked (dirty_folders_to_leafs known std_log oce_log) oce (leaf_of oce_file) ≡ true
oce_marked =
    dirty_folders_to_leafs_oce known std_log oce_log [] oce_file [] oce_log_records refl
      oce_is_stale

dirty_folders_to_leafs_sound_example :
    (uncrawled (folder_crawled_at known.folder_rows []) oce (leaf_of oce_file) known.active_folders
      || (calls_for (db_files known) oce (leaf_of oce_file) (std_records known std_log)
          || calls_for (db_files known) oce (leaf_of oce_file) (oce_records known oce_log)))
    ≡ true
dirty_folders_to_leafs_sound_example =
    dirty_folders_to_leafs_sound known std_log oce_log oce (leaf_of oce_file) oce_marked

new_is_active : contains known.active_folders (text "New_R3") ≡ true
unfolding dirty_folders_to_leafs ◌==◌ split strip lookup insert contains lower ends_with
    has_substring
new_is_active = refl

new_never_crawled :
    never_crawled (lookup (text "New_R3") (folder_crawled_at known.folder_rows [])) ≡ true
unfolding dirty_folders_to_leafs ◌==◌ split strip lookup insert contains lower ends_with
    has_substring
new_never_crawled = refl

dirty_folders_to_leafs_uncrawled_example :
    is_marked (dirty_folders_to_leafs known std_log oce_log) (text "New_R3") (text "New_R3") ≡ true
dirty_folders_to_leafs_uncrawled_example =
    dirty_folders_to_leafs_uncrawled known std_log oce_log (text "New_R3") new_is_active
      new_never_crawled

abbrev found_file : CrawledFile
found_file = record {
  file_id = text "7";
  name = text "x.csv";
  original_bytes = 10;
  compressed_bytes = 4;
  last_updated = text "t";
  xxhash = text "h";
}

abbrev services : Services
services = record {
  crawl = λ leaf. if leaf == text "bad" then crawl_error else crawled (found_file ∷ []);
  init_fails = λ p. false;
  upsert_fails = λ l. false;
  save_fails = λ p. false;
  now = λ p. 100;
  folder_to_domain = λ p. text "Load";
}

abbrev empty : State
empty = record { folders = []; files = []; next_id = 1; processed_any = false }

abbrev leaves : List Text
leaves = text "good" ∷ text "bad" ∷ []

abbrev result_of : Step → Bool × State
result_of (going ok s) = (ok, s)
result_of (stopped s) = (false, s)

abbrev result : Bool × State
result = result_of (crawl_parent services load leaves empty)

crawl_runs : crawl_parent services load leaves empty ≡ going result.0 result.1
unfolding crawl_parent ◌==◌ lookup insert
crawl_runs = refl

crawl_leaves_one_file : length result.1.files ≡ 1
unfolding crawl_parent ◌==◌ lookup insert
crawl_leaves_one_file = refl

crawl_parent_row_example :
    (result.0 ≡ all_succeed services leaves)
    × (lookup (parent_path load) result.1.folders
        ≡ some (
            counted_row services load
              (all_succeed services leaves)
              result.1.files
              (begun_row services load empty)))
crawl_parent_row_example =
    crawl_parent_row services load leaves empty result.0 result.1 refl refl crawl_runs

file_delivered :
    (belongs (begun_row services load empty).id (lookup (text "7") empty.files)
      || delivers services (text "7") leaves)
    ≡ true
unfolding crawl_parent ◌==◌ lookup insert
file_delivered = refl

crawl_parent_files_example :
    belongs (begun_row services load empty).id (lookup (text "7") result.1.files) ≡ true
crawl_parent_files_example =
    crawl_parent_files services load leaves empty result.0 result.1 (text "7") refl crawl_runs
      file_delivered
