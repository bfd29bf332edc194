-- ===== src/Io/Remote.antt =====
-- src/entsoe_pipeline/io/core/file_selector.py, io/core/fms_operations.py, io/fms.py and
-- io/core/disk_safety.py. The platform's answers are parameters: `list_folder folder root` is the
-- sorted listing, or `none` where it raises, and `post_download folder filename root` has the
-- members of the archive, or `none` where the request fails or the body is no archive.
use entsoe_pipeline.Prelude.{
  ℕ, ◌*◌, max, Bool, true, false, not, Option, none, some, List, [], ◌∷◌, ◌++◌, map, filter, any,
  Text, text, ◌==◌, contains, ends_with, replace_doubled, ltb, if◌then◌else◌,
}
use entsoe_pipeline.Io.Checklist.{Selection, files}
use entsoe_pipeline.Io.Schema.{TargetMapping}

-- A record of the listing, with the keys that the synchronisation reads. A missing key reads as
-- the default that the code gives.
pub record FileMeta : Type 0 where
  pub name : Text
  pub original_size : ℕ
  pub last_updated : Text
  pub file_id : Text
  pub remote_folder : Text

abbrev pub Archive : Type 0
Archive = List (Text × List ℕ)

-- `s.endswith(tuple)`
unfoldable pub ends_with_any : Text → List Text → Bool
unfolding ends_with
ends_with_any s exts = any (λ ext. ends_with s ext) exts

-- The filter by a list of names, which is skipped for a root file and for an empty list.
unfoldable pub keep_configured : Bool → Selection → List FileMeta → List FileMeta
keep_configured true val csv_files = csv_files
keep_configured false (files (n ∷ ns)) csv_files = filter (λ f. contains (n ∷ ns) f.name) csv_files
keep_configured false _ csv_files = csv_files

module _ (list_folder : Text → Text → Option (List FileMeta)) (extensions : List Text) where
  unfoldable pub select_files_to_sync : TargetMapping → Option (List FileMeta)
  unfolding ends_with_any keep_configured
  select_files_to_sync m =
      let remote_folder =
        if m.top_level_folder == text "TP_export" then m.active_folder else m.remote_folder_path in
      let is_root_file = ends_with_any remote_folder extensions in
      let folder = if is_root_file then [] else remote_folder in
      elim (list_folder folder m.top_level_folder) [
        | none ↦ none
        | some fms_files ↦
            let csv_files =
              filter
                (λ f.
                  if is_root_file then f.name == remote_folder else ends_with f.name (text ".csv"))
                fms_files in
            some (
              map (λ (f : FileMeta). record f { remote_folder = folder })
                (keep_configured is_root_file m.val csv_files))
      ]

-- The normalised `folder` of the request.
unfoldable pub download_folder : Text → Text → Text
unfolding replace_doubled ends_with
download_folder top_level_folder folder_path =
    let folder_str = replace_doubled b'/' (b'/' ∷ (top_level_folder ++ (b'/' ∷ folder_path))) in
    if ends_with folder_str (text "/") then folder_str else folder_str ++ text "/"

-- The first member of the archive; an empty one raises.
unfoldable pub extract_csv_bytes_from_zip : Archive → Option (List ℕ)
extract_csv_bytes_from_zip [] = none
extract_csv_bytes_from_zip ((_, content) ∷ _) = some content

module _ (post_download : Text → Text → Text → Option Archive) where
  unfoldable pub download_fms_file : Text → Text → Text → Option (List ℕ)
  unfolding download_folder extract_csv_bytes_from_zip
  download_fms_file top_level_folder folder_path filename =
      elim (post_download (download_folder top_level_folder folder_path) filename
        top_level_folder) [ none ↦ none | some archive ↦ extract_csv_bytes_from_zip archive ]

-- Whether the check passes; it raises otherwise. Sizes are in bytes, the margin is 100 MB.
unfoldable pub verify_free_disk_space : ℕ → ℕ → Bool
verify_free_disk_space free size_bytes =
    let required_bytes = max (100 * 1024 * 1024) (size_bytes * 2) in not (ltb free required_bytes)
