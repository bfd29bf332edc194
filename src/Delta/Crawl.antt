-- ===== src/Delta/Crawl.antt =====
-- Step 7 of `run_delta_metadata_refresh`: the crawl of the dirty leaves and the tables `fms_files`,
-- by `file_id`, and `fms_folders`, by `folder_path`, of one environment. The calls of the FMS and
-- whether the database takes a transaction are services.
pub mod Files
pub mod Totals
use entsoe_pipeline.Prelude.{
  ℕ, ◌+◌, Bool, true, false, Option, none, some, List, [], ◌∷◌, ◌++◌, length, map, filter, sum_by,
  nat_eq, Text, text, Dict, lookup, insert, if◌then◌else◌,
}
use entsoe_pipeline.Delta.Scan.{Dirty}

pub record FmsFile : Type 0 where
  pub folder_id : ℕ
  pub name : Text
  pub original_bytes : ℕ
  pub compressed_bytes : ℕ
  pub last_updated : Text
  pub xxhash : Text

pub record FmsFolder : Type 0 where
  pub id : ℕ
  pub domain : Text
  pub item_count : ℕ
  pub original_bytes : ℕ
  pub compressed_bytes : ℕ
  pub crawled_at : Option ℕ

-- An item of `crawl_metadata_folder`.
pub record CrawledFile : Type 0 where
  pub file_id : Text
  pub name : Text
  pub original_bytes : ℕ
  pub compressed_bytes : ℕ
  pub last_updated : Text
  pub xxhash : Text

pub data LeafCrawl : Type 0 where
  crawled : List CrawledFile → LeafCrawl
  crawl_error keyboard_interrupt : LeafCrawl

pub record Services : Type 0 where
  pub crawl : Text → LeafCrawl
  -- whether the transaction of step 7.1 fails for a parent, that of 7.3 for a leaf, of 7.4 for a parent
  pub init_fails : Text → Bool
  pub upsert_fails : Text → Bool
  pub save_fails : Text → Bool
  pub now : Text → ℕ
  pub folder_to_domain : Text → Text

pub record State : Type 0 where
  pub folders : Dict FmsFolder
  pub files : Dict FmsFile
  -- the next value of the key of `fms_folders`
  pub next_id : ℕ
  pub processed_any : Bool

-- `going` with `all_leaves_succeeded`, or stopped by Ctrl+C.
pub data Step : Type 0 where
  going : Bool → State → Step
  stopped : State → Step

abbrev pub parent_path : Text → Text
parent_path parent = text "/TP_export/" ++ (parent ++ text "/")

abbrev pub new_folder : ℕ → Text → FmsFolder
new_folder id domain = record {
  id = id;
  domain = domain;
  item_count = 0;
  original_bytes = 0;
  compressed_bytes = 0;
  crawled_at = none;
}

abbrev pub file_row : ℕ → CrawledFile → FmsFile
file_row folder_id f = record {
  folder_id = folder_id;
  name = f.name;
  original_bytes = f.original_bytes;
  compressed_bytes = f.compressed_bytes;
  last_updated = f.last_updated;
  xxhash = f.xxhash;
}

-- `INSERT ... ON CONFLICT (file_id) DO UPDATE`
unfoldable pub upsert : ℕ → List CrawledFile → Dict FmsFile → Dict FmsFile
upsert folder_id [] files = files
upsert folder_id (f ∷ fs) files =
    upsert folder_id fs (insert f.file_id (file_row folder_id f) files)

abbrev pub files_in : ℕ → Dict FmsFile → List FmsFile
files_in folder_id files = filter (λ f. nat_eq f.folder_id folder_id) (map (λ (_, f). f) files)

-- `UPDATE fms_folders SET ... WHERE id = folder_id`
unfoldable pub update_folder : ℕ → (FmsFolder → FmsFolder) → Dict FmsFolder → Dict FmsFolder
update_folder id f [] = []
update_folder id f ((path, row) ∷ folders) =
    (path, (if nat_eq row.id id then f row else row)) ∷ update_folder id f folders

module _ (svc : Services) where
  abbrev pub entry_for : Text → Option FmsFolder → State → ℕ × State
  entry_for parent (some row) s = (row.id, s)
  entry_for parent none s = (
    s.next_id,
    record s {
      folders =
          insert (parent_path parent) (new_folder s.next_id (svc.folder_to_domain parent))
            s.folders;
      next_id = s.next_id + 1;
    },
  )

  -- 7.1
  unfoldable pub ensure_folder : Text → State → ℕ × State
  ensure_folder parent s = entry_for parent (lookup (parent_path parent) s.folders) s

  -- 7.2 and 7.3, for one leaf
  unfoldable pub crawl_leaf : ℕ → Text → LeafCrawl → Bool → State → Step
  unfolding upsert
  crawl_leaf folder_id leaf (crawled []) ok s = going ok s
  crawl_leaf folder_id leaf (crawled (f ∷ fs)) ok s =
      if svc.upsert_fails leaf
      then going false s
      else going ok (record s { files = upsert folder_id (f ∷ fs) s.files; processed_any = true })
  crawl_leaf folder_id leaf crawl_error ok s = going false s
  crawl_leaf folder_id leaf keyboard_interrupt ok s = stopped s

  abbrev pub unless_stopped : Step → (Bool → State → Step) → Step
  unless_stopped (going ok s) k = k ok s
  unless_stopped (stopped s) k = stopped s

  unfoldable pub crawl_leaves : ℕ → List Text → Bool → State → Step
  unfolding crawl_leaf
  crawl_leaves folder_id [] ok s = going ok s
  crawl_leaves folder_id (leaf ∷ leaves) ok s =
      unless_stopped (crawl_leaf folder_id leaf (svc.crawl leaf) ok s)
        (crawl_leaves folder_id leaves)

  -- The values that step 7.4 gives the row of a folder.
  abbrev pub aggregated : Text → Bool → List FmsFile → FmsFolder → FmsFolder
  aggregated parent ok files row = record row {
    item_count = length files;
    original_bytes = sum_by (λ f. f.original_bytes) files;
    compressed_bytes = sum_by (λ f. f.compressed_bytes) files;
    crawled_at = if ok then some (svc.now parent) else row.crawled_at;
  }

  -- 7.4
  unfoldable pub save_aggregates : Text → ℕ → Bool → State → Step
  unfolding update_folder
  save_aggregates parent folder_id ok s =
      if svc.save_fails parent
      then going ok s
      else going ok (record s {
        folders =
            update_folder folder_id (aggregated parent ok (files_in folder_id s.files)) s.folders;
      })

  unfoldable pub crawl_parent : Text → List Text → State → Step
  unfolding ensure_folder crawl_leaves save_aggregates
  crawl_parent parent leaves s =
      let (folder_id, begun) = ensure_folder parent s in
      if svc.init_fails parent
      then going true s
      else unless_stopped (crawl_leaves folder_id leaves true begun)
          (save_aggregates parent folder_id)

  unfoldable pub crawl_dirty : Dirty → State → Step
  unfolding crawl_parent
  crawl_dirty [] s = going true s
  crawl_dirty ((parent, leaves) ∷ dirty) s =
      unless_stopped (crawl_parent parent leaves s) (λ _. crawl_dirty dirty)
