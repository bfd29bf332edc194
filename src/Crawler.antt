-- ===== src/Crawler.antt =====
-- src/entsoe_pipeline/fms_metadata/core/domain_metadata_crawler.py, metadata_crawlers_common.py and
-- utils/transformer.py: the full crawl of a domain's folders and what it writes to `fms_folders` and
-- `fms_files` of one environment. A crawl of a folder is a service.
pub mod Replace
pub mod Keys
pub mod Freshness
pub mod Folder
pub mod Sessions
use entsoe_pipeline.Prelude.{
  ℕ, ◌+◌, Bool, not, Option, none, some, List, [], ◌∷◌, ◌++◌, length, map, filter, sum_by, nat_eq,
  Text, text, Dict, lookup, insert, if◌then◌else◌,
}
use entsoe_pipeline.Delta.Crawl.{FmsFile, FmsFolder, CrawledFile, file_row, update_folder}

pub record FmsTables : Type 0 where
  pub folders : Dict FmsFolder
  pub files : Dict FmsFile
  -- the next value of the key of `fms_folders`
  pub next_id : ℕ

pub record FolderMeta : Type 0 where
  pub folder_path : Text
  pub item_count : ℕ
  pub original_bytes : ℕ
  pub compressed_bytes : ℕ

unfoldable pub compile_folder_metadata : Text → List CrawledFile → Text → FolderMeta
compile_folder_metadata folder_name files root_dir = record {
  folder_path = b'/' ∷ root_dir ++ (b'/' ∷ folder_name ++ text "/");
  item_count = length files;
  original_bytes = sum_by (λ f. f.original_bytes) files;
  compressed_bytes = sum_by (λ f. f.compressed_bytes) files;
}

abbrev pub folder_row : ℕ → Text → FolderMeta → ℕ → FmsFolder
folder_row id domain meta now = record {
  id = id;
  domain = domain;
  item_count = meta.item_count;
  original_bytes = meta.original_bytes;
  compressed_bytes = meta.compressed_bytes;
  crawled_at = some now;
}

-- The row of the folder by its path, updated or inserted, and its key.
unfoldable pub save_folder : Option FmsFolder → Text → FolderMeta → ℕ → FmsTables → ℕ × FmsTables
unfolding update_folder
save_folder (some row) domain meta now s = (
  row.id,
  record s { folders = update_folder row.id (λ r. folder_row r.id r.domain meta now) s.folders },
)
save_folder none domain meta now s = (
  s.next_id,
  record s {
    folders = insert meta.folder_path (folder_row s.next_id domain meta now) s.folders;
    next_id = s.next_id + 1;
  },
)

-- `DELETE FROM fms_files WHERE folder_id = ...`
unfoldable pub clear_files : ℕ → Dict FmsFile → Dict FmsFile
clear_files folder_id files = filter (λ (_, f). not (nat_eq f.folder_id folder_id)) files

abbrev pub insert_new : Option FmsFile → Text → FmsFile → Dict FmsFile → Option (Dict FmsFile)
insert_new none file_id row files = some (insert file_id row files)
insert_new (some old) file_id row files = none

abbrev pub then_insert :
    Option (Dict FmsFile) → (Dict FmsFile → Option (Dict FmsFile)) → Option (Dict FmsFile)
then_insert none k = none
then_insert (some files) k = k files

-- The bulk insert; a key that is there already is an `IntegrityError`, which rolls back everything.
unfoldable pub insert_files : ℕ → List CrawledFile → Dict FmsFile → Option (Dict FmsFile)
insert_files folder_id [] files = some files
insert_files folder_id (f ∷ fs) files =
    then_insert (insert_new (lookup f.file_id files) f.file_id (file_row folder_id f) files)
      (insert_files folder_id fs)

abbrev pub with_files : FmsTables → Option (Dict FmsFile) → Option FmsTables
with_files s none = none
with_files s (some files) = some (record s { files = files })

-- One transaction: `none` leaves the tables as they were.
unfoldable pub save_crawled_folder_metadata :
    Text → FolderMeta → List CrawledFile → ℕ → FmsTables → Option FmsTables
unfolding save_folder clear_files insert_files
save_crawled_folder_metadata domain meta files now s =
    let (folder_id, saved) = save_folder (lookup meta.folder_path s.folders) domain meta now s in
    with_files saved (insert_files folder_id files (clear_files folder_id saved.files))

pub record Services : Type 0 where
  -- `none` is the exception, after which the folder is passed over
  pub crawl_metadata_folder : Text → Option (List CrawledFile)
  -- whether the database takes the transaction of a folder
  pub database_works : Text → Bool
  pub now : Text → ℕ

-- `raised` is an exception of the database, which nothing here catches.
pub data CrawlResult : Type 0 where
  completed raised : FmsTables → CrawlResult

module _ (svc : Services) (domain root_dir : Text) where
  abbrev pub saved_or_raised :
      Option FmsTables → FmsTables → (FmsTables → CrawlResult) → CrawlResult
  saved_or_raised none s k = raised s
  saved_or_raised (some t) s k = k t

  abbrev pub save_files : Text → List CrawledFile → FmsTables → Option FmsTables
  save_files folder files s =
      if svc.database_works folder
      then save_crawled_folder_metadata domain (compile_folder_metadata folder files root_dir) files
          (svc.now folder) s
      else none

  abbrev pub on_crawl :
      Text → Option (List CrawledFile) → FmsTables → (FmsTables → CrawlResult) → CrawlResult
  on_crawl folder none s k = k s
  on_crawl folder (some files) s k = saved_or_raised (save_files folder files s) s k

  -- The loop of the two crawlers.
  unfoldable pub crawl_folders : List Text → FmsTables → CrawlResult
  unfolding save_crawled_folder_metadata compile_folder_metadata
  crawl_folders [] s = completed s
  crawl_folders (folder ∷ folders) s =
      on_crawl folder (svc.crawl_metadata_folder folder) s (crawl_folders folders)
