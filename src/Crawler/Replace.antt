-- ===== src/Crawler/Replace.antt =====
-- A crawl replaces the files of its folder and leaves those of the others.
use mathlib.Core.List.{append-nil, append_assoc}
use entsoe_pipeline.Prelude.{
  ℕ, ◌≡◌, ◌≢◌, refl, ap, ◌∙◌, Option, none, some, List, [], ◌∷◌, ◌++◌, map, nat_eq, Text, Dict,
  lookup, insert, lookup-insert_self, if◌then◌else◌, arith,
}
use entsoe_pipeline.Delta.Crawl.{FmsFile, FmsFolder, CrawledFile, file_row, files_in}
use entsoe_pipeline.Delta.Crawl.Totals.{lookup-update_folder}
use entsoe_pipeline.Crawler.{
  FmsTables, FolderMeta, folder_row, save_folder, clear_files, insert_new, then_insert,
  insert_files, with_files, save_crawled_folder_metadata,
}

files_in-clear_files_other :
    (i j : ℕ) (files : Dict FmsFile) → i ≢ j → files_in j (clear_files i files) ≡ files_in j files
unfolding clear_files
files_in-clear_files_other i j [] h = refl
files_in-clear_files_other i j ((k, f) ∷ files) h =
    ground (arith, files_in-clear_files_other i j files h, h)

abbrev only_in : ℕ → FmsFile → List FmsFile
only_in i f = if nat_eq f.folder_id i then f ∷ [] else []

files_in-insert :
    (i : ℕ) (k : Text) (f : FmsFile) (files : Dict FmsFile)
    → lookup k files ≡ none
    → files_in i (insert k f files) ≡ files_in i files ++ only_in i f
unfolding lookup insert
files_in-insert i k f [] h = refl
files_in-insert i k f ((j, g) ∷ files) h = ground (arith, files_in-insert i k f files)

files_in-insert_new :
    (i : ℕ) (k : Text) (f : FmsFile) (o : Option FmsFile) (files files' : Dict FmsFile)
    → lookup k files ≡ o
    → insert_new o k f files ≡ some files'
    → files_in i files' ≡ files_in i files ++ only_in i f
files_in-insert_new i k f none files files' e h = ground (arith, files_in-insert i k f files e, h)
files_in-insert_new i k f (some g) files files' e h = ground (arith, h)

then_insert_lem :
    (o : Option (Dict FmsFile)) (k : Dict FmsFile → Option (Dict FmsFile)) (out : Dict FmsFile)
    → then_insert o k ≡ some out
    → (mid : Dict FmsFile) × (o ≡ some mid) × (k mid ≡ some out)
then_insert_lem none k out h = ground (arith, h)
then_insert_lem (some mid) k out h = (mid, refl, h)

-- What of the inserted files is the folder's.
abbrev rows_in : ℕ → ℕ → List CrawledFile → List FmsFile
rows_in folder_id i fs = if nat_eq folder_id i then map (file_row folder_id) fs else []

rows_join :
    (folder_id i : ℕ) (f : CrawledFile) (fs : List CrawledFile)
    → only_in i (file_row folder_id f) ++ rows_in folder_id i fs ≡ rows_in folder_id i (f ∷ fs)
rows_join folder_id i f fs = ground arith

files_in-insert_files :
    (folder_id i : ℕ) (fs : List CrawledFile) (files out : Dict FmsFile)
    → insert_files folder_id fs files ≡ some out
    → files_in i out ≡ files_in i files ++ rows_in folder_id i fs
unfolding insert_files
files_in-insert_files folder_id i [] files out h = ground (arith, h, append-nil (files_in i files))
files_in-insert_files folder_id i (f ∷ fs) files out h =
    let (mid, e, k) =
      then_insert_lem (insert_new (lookup f.file_id files) f.file_id (file_row folder_id f) files)
        (insert_files folder_id fs) out h in
    files_in-insert_files folder_id i fs mid out k
    ∙ ap (λ xs. xs ++ rows_in folder_id i fs)
        (files_in-insert_new i f.file_id (file_row folder_id f) (lookup f.file_id files) files mid
          refl e)
    ∙ append_assoc (files_in i files) (only_in i (file_row folder_id f)) (rows_in folder_id i fs)
    ∙ ap (λ xs. files_in i files ++ xs) (rows_join folder_id i f fs)

abbrev domain_of : Option FmsFolder → Text → Text
domain_of none domain = domain
domain_of (some row) domain = row.domain

save_folder_lem :
    (o : Option FmsFolder) (domain : Text) (meta : FolderMeta) (now : ℕ) (s : FmsTables)
    → lookup meta.folder_path s.folders ≡ o
    → (lookup meta.folder_path (save_folder o domain meta now s).1.folders
        ≡ some (folder_row (save_folder o domain meta now s).0 (domain_of o domain) meta now))
      × ((save_folder o domain meta now s).1.files ≡ s.files)
unfolding save_folder
save_folder_lem none domain meta now s e =
    (lookup-insert_self meta.folder_path (folder_row s.next_id domain meta now) s.folders, refl)
save_folder_lem (some row) domain meta now s e = (
  lookup-update_folder row.id (λ r. folder_row r.id r.domain meta now) meta.folder_path row
      s.folders e refl,
  refl,
)

pub with_files_lem :
    (s : FmsTables) (o : Option (Dict FmsFile)) (t : FmsTables)
    → with_files s o ≡ some t
    → (o ≡ some t.files) × (t.folders ≡ s.folders)
with_files_lem s none t h = ground (arith, h)
with_files_lem s (some out) t h = ground (arith, h)

-- The key under which the folder's files are stored.
abbrev pub folder_id_of : Text → FolderMeta → ℕ → FmsTables → ℕ
folder_id_of domain meta now s =
    (save_folder (lookup meta.folder_path s.folders) domain meta now s).0

saved_files :
    (domain : Text) (meta : FolderMeta) (files : List CrawledFile) (now : ℕ) (s t : FmsTables)
    (i : ℕ)
    → save_crawled_folder_metadata domain meta files now s ≡ some t
    → (files_in i t.files
        ≡ files_in i (clear_files (folder_id_of domain meta now s) s.files)
          ++ rows_in (folder_id_of domain meta now s) i files)
      × (lookup meta.folder_path t.folders
          ≡ some (
              folder_row
                (folder_id_of domain meta now s)
                (domain_of (lookup meta.folder_path s.folders) domain)
                meta
                now))
unfolding save_crawled_folder_metadata
saved_files domain meta files now s t i h =
    let id = folder_id_of domain meta now s in
    let saved = (save_folder (lookup meta.folder_path s.folders) domain meta now s).1 in
    let (found, same) =
      save_folder_lem (lookup meta.folder_path s.folders) domain meta now s refl in
    let (inserted, kept) =
      with_files_lem saved (insert_files id files (clear_files id saved.files)) t h in
    (
      files_in-insert_files id i files (clear_files id saved.files) t.files inserted
          ∙ ap (λ fs. files_in i (clear_files id fs) ++ rows_in id i files) same,
      ap (lookup meta.folder_path) kept ∙ found,
    )

-- The transaction of a crawled folder leaves the files that are stored for any other folder as they
-- are.
pub save_crawled_folder_metadata_other :
    (domain : Text) (meta : FolderMeta) (files : List CrawledFile) (now : ℕ) (s t : FmsTables)
    (i : ℕ)
    → save_crawled_folder_metadata domain meta files now s ≡ some t
    → folder_id_of domain meta now s ≢ i
    → files_in i t.files ≡ files_in i s.files
save_crawled_folder_metadata_other domain meta files now s t i h other =
    (saved_files domain meta files now s t i h).0
    ∙ ground (
      arith,
      files_in-clear_files_other (folder_id_of domain meta now s) i s.files other,
      append-nil (files_in i s.files),
      other,
    )
