-- ===== src/Tests/Crawls.antt =====
-- The full crawl of one folder over tables with an old file of it and a file of another.
use mathlib.Core.Option.{get_or}
use entsoe_pipeline.Prelude.{
  Option, Text, true, false, not, ◌||◌, ◌-◌, nat_eq, contains, ℕ, ◌≡◌, ◌≢◌, refl, none, some, List,
  [], ◌∷◌, length, text, ◌==◌, lookup, insert, arith,
}
use entsoe_pipeline.Delta.Crawl.{FmsFile, FmsFolder, CrawledFile, files_in}
use entsoe_pipeline.Crawler.{FmsTables, compile_folder_metadata, save_crawled_folder_metadata}
use entsoe_pipeline.Crawler.Freshness.{
  sql_contains, has_fresh_row, filter_fresh_folders, filter_fresh_folders_lem,
}
use entsoe_pipeline.Crawler.Replace.{folder_id_of, save_crawled_folder_metadata_other}

abbrev stored : ℕ → FmsFile
stored id = record {
  folder_id = id;
  name = text "old.csv";
  original_bytes = 9;
  compressed_bytes = 9;
  last_updated = text "t";
  xxhash = text "h";
}

abbrev load_row : FmsFolder
load_row = record {
  id = 1;
  domain = text "Load";
  item_count = 1;
  original_bytes = 9;
  compressed_bytes = 9;
  crawled_at = none;
}

abbrev tables : FmsTables
tables = record {
  folders = (text "/TP_export/Load_R3/", load_row) ∷ [];
  files = (text "1", stored 1) ∷ (text "2", stored 2) ∷ [];
  next_id = 2;
}

abbrev new_files : List CrawledFile
new_files =
    record {
      file_id = text "1";
      name = text "a.csv";
      original_bytes = 5;
      compressed_bytes = 2;
      last_updated = text "u";
      xxhash = text "x";
    }
    ∷ record {
      file_id = text "3";
      name = text "b.csv";
      original_bytes = 6;
      compressed_bytes = 3;
      last_updated = text "u";
      xxhash = text "y";
    }
    ∷ []

abbrev after : FmsTables
after =
    get_or
      (save_crawled_folder_metadata (text "Load")
        (compile_folder_metadata (text "Load_R3") new_files (text "TP_export")) new_files 50 tables)
      tables

saves :
    save_crawled_folder_metadata
      (text "Load")
      (compile_folder_metadata (text "Load_R3") new_files (text "TP_export"))
      new_files
      50
      tables
    ≡ some after
unfolding save_crawled_folder_metadata compile_folder_metadata ◌==◌ lookup insert
saves = refl

three_files : length after.files ≡ 3
unfolding save_crawled_folder_metadata compile_folder_metadata ◌==◌ lookup insert
three_files = refl

not_two :
    folder_id_of
      (text "Load")
      (compile_folder_metadata (text "Load_R3") new_files (text "TP_export"))
      50
      tables
    ≢ 2
unfolding save_crawled_folder_metadata compile_folder_metadata ◌==◌ lookup insert
not_two = ground arith

save_crawled_folder_metadata_other_example : files_in 2 after.files ≡ files_in 2 tables.files
save_crawled_folder_metadata_other_example =
    save_crawled_folder_metadata_other (text "Load")
      (compile_folder_metadata (text "Load_R3") new_files (text "TP_export")) new_files 50 tables
      after 2 saves not_two

abbrev folder_rows : List (Text × Option ℕ)
folder_rows =
    (text "/TP_export/Load_r3.1/", some 99)
    ∷ (text "/TP_export/Load_r3/", none)
    ∷ (text "/TP_export/Gen/", some 90)
    ∷ []

gen_is_listed : contains (text "Gen" ∷ []) (text "Gen") ≡ true
unfolding contains ◌==◌
gen_is_listed = refl

gen_is_old : (has_fresh_row (100 - 3) (text "Gen") folder_rows) ≡ false
unfolding sql_contains
gen_is_old = refl

gen_is_due :
    (false || (nat_eq 3 0 || not (has_fresh_row (100 - 3) (text "Gen") folder_rows))) ≡ true
gen_is_due = rw gen_is_old refl

filter_fresh_folders_lem_example :
    contains (filter_fresh_folders 100 3 folder_rows (text "Gen" ∷ []) false) (text "Gen") ≡ true
filter_fresh_folders_lem_example =
    filter_fresh_folders_lem 100 3 folder_rows (text "Gen" ∷ []) false (text "Gen") gen_is_listed
      gen_is_due

-- A folder that was never crawled is passed over when the path of a fresh one contains its name.
masked : filter_fresh_folders 100 3 folder_rows (text "Load_r3" ∷ []) false ≡ []
unfolding filter_fresh_folders
masked = refl
