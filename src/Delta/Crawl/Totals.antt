-- ===== src/Delta/Crawl/Totals.antt =====
-- The row of `fms_folders` that crawling a parent folder leaves behind.
use entsoe_pipeline.Prelude.{
  ℕ, ◌≡◌, refl, sym, ap, ◌∙◌, Bool, true, false, ◌||◌, ◌+◌, nat_eq, length, sum_by, if◌then◌else◌,
  Option, none, some, List, [], ◌∷◌, Text, Dict, lookup, lookup-insert_self, arith,
}
use entsoe_pipeline.Delta.Crawl.{
  FmsFile, FmsFolder, Services, State, going, parent_path, new_folder, files_in, update_folder,
  ensure_folder, entry_for, crawl_leaves, save_aggregates, aggregated, crawl_parent,
}
use entsoe_pipeline.Delta.Crawl.Files.{
  belongs, delivers, all_succeed, crawl_leaves_flags, crawl_leaves_files, unless_stopped_lem,
}

pub lookup-update_folder :
    (id : ℕ) (f : FmsFolder → FmsFolder) (path : Text) (row : FmsFolder) (folders : Dict FmsFolder)
    → lookup path folders ≡ some row
    → row.id ≡ id
    → lookup path (update_folder id f folders) ≡ some (f row)
unfolding lookup update_folder
lookup-update_folder id f path row [] h e = ground arith
lookup-update_folder id f path row ((p, r) ∷ folders) h e =
    ground (arith, lookup-update_folder id f path row folders)

-- The sum over the files of a folder
abbrev pub sum_where : ℕ → (FmsFile → ℕ) → Dict FmsFile → ℕ
sum_where folder_id g [] = 0
sum_where folder_id g ((_, f) ∷ files) =
    let rest = sum_where folder_id g files in
    if nat_eq f.folder_id folder_id then g f + rest else rest

length-files_in :
    (folder_id : ℕ) (files : Dict FmsFile)
    → length (files_in folder_id files) ≡ sum_where folder_id (λ f. 1) files
length-files_in folder_id [] = refl
length-files_in folder_id ((_, f) ∷ files) = ground (arith, length-files_in folder_id files)

sum-files_in :
    (folder_id : ℕ) (g : FmsFile → ℕ) (files : Dict FmsFile)
    → sum_by g (files_in folder_id files) ≡ sum_where folder_id g files
sum-files_in folder_id g [] = refl
sum-files_in folder_id g ((_, f) ∷ files) = ground (arith, sum-files_in folder_id g files)

module _ (svc : Services) where
  abbrev row_or_new : Text → Option FmsFolder → State → FmsFolder
  row_or_new parent none s = record {
    id = s.next_id;
    domain = svc.folder_to_domain parent;
    item_count = 0;
    original_bytes = 0;
    compressed_bytes = 0;
    crawled_at = none;
  }
  row_or_new parent (some row) s = row

  -- The row of the parent when its leaves are begun: the one that is there, or a new one.
  abbrev pub begun_row : Text → State → FmsFolder
  begun_row parent s = row_or_new parent (lookup (parent_path parent) s.folders) s

  -- The row of a folder by the files of the table: the one from before, with the number of the folder's
  -- files, their sizes, and the crawl time, which is now if every leaf succeeded.
  abbrev pub counted_row : Text → Bool → Dict FmsFile → FmsFolder → FmsFolder
  counted_row parent succeeded files row = record {
    id = row.id;
    domain = row.domain;
    item_count = sum_where row.id (λ f. 1) files;
    original_bytes = sum_where row.id (λ f. f.original_bytes) files;
    compressed_bytes = sum_where row.id (λ f. f.compressed_bytes) files;
    crawled_at = elim succeeded [ true ↦ some (svc.now parent) | false ↦ row.crawled_at ];
  }

  aggregated-counted_row :
      (parent : Text) (ok : Bool) (files : Dict FmsFile) (row : FmsFolder)
      → aggregated svc parent ok (files_in row.id files) row ≡ counted_row parent ok files row
  aggregated-counted_row parent true files row =
      rw
        (
          length-files_in row.id files,
          sum-files_in row.id (λ f. f.original_bytes) files,
          sum-files_in row.id (λ f. f.compressed_bytes) files,
        )
        refl
  aggregated-counted_row parent false files row =
      rw
        (
          length-files_in row.id files,
          sum-files_in row.id (λ f. f.original_bytes) files,
          sum-files_in row.id (λ f. f.compressed_bytes) files,
        )
        refl

  entry_for_lem :
      (parent : Text) (o : Option FmsFolder) (s : State)
      → lookup (parent_path parent) s.folders ≡ o
      → ((entry_for svc parent o s).0 ≡ (row_or_new parent o s).id)
        × (lookup (parent_path parent) (entry_for svc parent o s).1.folders
            ≡ some (row_or_new parent o s))
  entry_for_lem parent none s e = (
    refl,
    lookup-insert_self (parent_path parent) (new_folder s.next_id (svc.folder_to_domain parent))
        s.folders,
  )
  entry_for_lem parent (some row) s e = (refl, e)

  ensure_folder_lem :
      (parent : Text) (s : State)
      → ((ensure_folder svc parent s).0 ≡ (begun_row parent s).id)
        × (lookup (parent_path parent) (ensure_folder svc parent s).1.folders
            ≡ some (begun_row parent s))
  unfolding ensure_folder
  ensure_folder_lem parent s = entry_for_lem parent (lookup (parent_path parent) s.folders) s refl

  save_aggregates_lem :
      (parent : Text) (id : ℕ) (ok : Bool) (u : State) (ok' : Bool) (t : State)
      → svc.save_fails parent ≡ false
      → save_aggregates svc parent id ok u ≡ going ok' t
      → (ok' ≡ ok)
        × (t.files ≡ u.files)
        × (t.folders ≡ update_folder id (aggregated svc parent ok (files_in id u.files)) u.folders)
  unfolding save_aggregates
  save_aggregates_lem parent id ok u ok' t save h = ground (arith, rw (save, save_aggregates) at h)

  entry_for_files :
      (parent : Text) (o : Option FmsFolder) (s : State)
      → (entry_for svc parent o s).1.files ≡ s.files
  entry_for_files parent none s = refl
  entry_for_files parent (some row) s = refl

  ensure_folder_files : (parent : Text) (s : State) → (ensure_folder svc parent s).1.files ≡ s.files
  unfolding ensure_folder
  ensure_folder_files parent s = entry_for_files parent (lookup (parent_path parent) s.folders) s

  save_aggregates_files :
      (parent : Text) (id : ℕ) (ok : Bool) (u : State) (ok' : Bool) (t : State)
      → save_aggregates svc parent id ok u ≡ going ok' t
      → t.files ≡ u.files
  unfolding save_aggregates
  save_aggregates_files parent id ok u ok' t h = ground (arith, h)

  crawl_parent_parts :
      (parent : Text) (leaves : List Text) (s : State) (ok : Bool) (t : State)
      → svc.init_fails parent ≡ false
      → crawl_parent svc parent leaves s ≡ going ok t
      → (ok1 : Bool) × (u : State) × (crawl_leaves svc
            (ensure_folder svc parent s).0
            leaves
            true
            (ensure_folder svc parent s).1
          ≡ going ok1 u)
        × (save_aggregates svc parent (ensure_folder svc parent s).0 ok1 u ≡ going ok t)
  unfolding crawl_parent
  crawl_parent_parts parent leaves s ok t init h =
      let (folder_id, begun) = ensure_folder svc parent s in
      unless_stopped_lem svc (crawl_leaves svc folder_id leaves true begun)
        (save_aggregates svc parent folder_id) ok t (rw (init, crawl_parent) at h)

  -- When crawling a parent folder is not stopped and none of the transactions of the parent itself
  -- fails, its row holds the number and the sizes of exactly the files that the database then has for
  -- it, and its crawl time is now if every leaf succeeded, else what it was.
  pub crawl_parent_row :
      (parent : Text) (leaves : List Text) (s : State) (ok : Bool) (t : State)
      → svc.init_fails parent ≡ false
      → svc.save_fails parent ≡ false
      → crawl_parent svc parent leaves s ≡ going ok t
      → (ok ≡ all_succeed svc leaves)
        × (lookup (parent_path parent) t.folders
            ≡ some (counted_row parent (all_succeed svc leaves) t.files (begun_row parent s)))
  crawl_parent_row parent leaves s ok t init save h =
      let (ok1, u, e, k) = crawl_parent_parts parent leaves s ok t init h in
      let (id_is, begun) = ensure_folder_lem parent s in
      let folder_id = (ensure_folder svc parent s).0 in
      let flags =
        crawl_leaves_flags svc folder_id leaves true (ensure_folder svc parent s).1 ok1 u e in
      let (same_ok, same_files, saved) = save_aggregates_lem parent folder_id ok1 u ok t save k in
      let row = begun_row parent s in
      let written = aggregated svc parent ok1 (files_in folder_id u.files) in
      let found =
        lookup-update_folder folder_id written (parent_path parent) row u.folders
          (ap (lookup (parent_path parent)) flags.1 ∙ begun) (sym id_is) in
      (
        same_ok ∙ flags.0,
        ap (lookup (parent_path parent)) saved
            ∙ found
            ∙ rw (flags.0, id_is, same_files) refl
            ∙ ap some (aggregated-counted_row parent (all_succeed svc leaves) t.files row),
      )

  -- When crawling a parent folder is not stopped and the transaction that opens it does not fail, every
  -- file that one of its leaves listed and the database took is in the database under this folder, and
  -- so is every file that was there under it before.
  pub crawl_parent_files :
      (parent : Text) (leaves : List Text) (s : State) (ok : Bool) (t : State) (file_id : Text)
      → svc.init_fails parent ≡ false
      → crawl_parent svc parent leaves s ≡ going ok t
      → (belongs (begun_row parent s).id (lookup file_id s.files) || delivers svc file_id leaves)
        ≡ true
      → belongs (begun_row parent s).id (lookup file_id t.files) ≡ true
  crawl_parent_files parent leaves s ok t file_id init h b =
      let (ok1, u, e, k) = crawl_parent_parts parent leaves s ok t init h in
      let folder_id = (ensure_folder svc parent s).0 in
      let id_is = (ensure_folder_lem parent s).0 in
      let before : (belongs folder_id (lookup file_id (ensure_folder svc parent s).1.files)
            || delivers svc file_id leaves)
          ≡ true =
        rw (id_is, ensure_folder_files parent s) b in
      let stored =
        crawl_leaves_files svc folder_id leaves true (ensure_folder svc parent s).1 ok1 u file_id e
          before in
      rw (save_aggregates_files parent folder_id ok1 u ok t k, sym id_is) stored
