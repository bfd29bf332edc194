-- ===== src/Delta/Scan.antt =====
-- Steps 3 to 6 of `run_delta_metadata_refresh`: which folders, or leaves of folders, are to be crawled
-- again. A time is a number; `none` is a missing time or one that does not parse. A set is a list
-- without repetition.
pub mod Dirty
pub mod Missed
use entsoe_pipeline.Prelude.{
  ℕ, zero, suc, ◌+◌, Bool, true, false, not, ◌&&◌, ◌||◌, Option, none, some, List, [], ◌∷◌, ◌++◌,
  filter, find?, map, Text, ◌==◌, contains, has_substring, split, strip, Dict, lookup, insert, ltb,
  leb, if◌then◌else◌,
}
use entsoe_pipeline.Delta.Names.{strip_extension, resolve_exact_fms_folder}

-- `parent_folder -> set of leaf_paths`
abbrev pub Dirty : Type 0
Dirty = Dict (List Text)

abbrev pub leaves_of : Option (List Text) → List Text
leaves_of none = []
leaves_of (some leaves) = leaves

abbrev pub add : Text → List Text → List Text
add leaf leaves = if contains leaves leaf then leaves else leaves ++ (leaf ∷ [])

-- `dirty_folders_to_leafs.setdefault(parent, set()).add(leaf)`
unfoldable pub mark : Text → Text → Dirty → Dirty
mark parent leaf dirty = insert parent (add leaf (leaves_of (lookup parent dirty))) dirty

-- `{strip_extension(row[0]): {"last_updated": ...} for row in db_file_rows}`
unfoldable pub db_files_of : List (Text × Option ℕ) → Dict (Option ℕ) → Dict (Option ℕ)
db_files_of [] files = files
db_files_of ((name, last_updated) ∷ rows) files =
    db_files_of rows (insert (strip_extension name) last_updated files)

abbrev pub last_part : List Text → Text
last_part [] = []
last_part (p ∷ []) = p
last_part (p ∷ q ∷ ps) = last_part (q ∷ ps)

-- `folder_crawled_at[path.strip("/").split("/")[-1]] = crawled_at`
unfoldable pub folder_crawled_at : List (Text × Option ℕ) → Dict (Option ℕ) → Dict (Option ℕ)
folder_crawled_at [] states = states
folder_crawled_at ((path, crawled_at) ∷ rows) states =
    folder_crawled_at rows (insert (last_part (split b'/' (strip b'/' path))) crawled_at states)

abbrev pub never_crawled : Option (Option ℕ) → Bool
never_crawled none = true
never_crawled (some none) = true
never_crawled (some (some t)) = false

unfoldable pub mark_uncrawled : Dict (Option ℕ) → List Text → Dirty → Dirty
unfolding mark
mark_uncrawled states [] dirty = dirty
mark_uncrawled states (folder ∷ folders) dirty =
    mark_uncrawled states folders
      (if never_crawled (lookup folder states) then mark folder folder dirty else dirty)

-- A line of a log. An absent cell is empty, and so is `folder_name` in the log that has none.
pub record LogRow : Type 0 where
  pub file_name : Text
  pub folder_name : Text
  pub max_update_time : Option ℕ

pub record LogRecord : Type 0 where
  pub file_name : Text
  pub folder_name : Text
  pub max_update_time : ℕ

abbrev record_at : Text → Text → Option ℕ → List LogRecord
record_at file_name folder none = []
record_at file_name folder (some t) =
    record { file_name = file_name; folder_name = folder; max_update_time = t } ∷ []

abbrev in_folder : LogRow → Option Text → List LogRecord
in_folder row none = []
in_folder row (some folder) = record_at row.file_name folder row.max_update_time

-- A line of the standard log: the first active folder whose name the file's name contains.
unfoldable pub std_record : List Text → LogRow → List LogRecord
std_record active_folders row =
    if row.file_name == []
    then []
    else in_folder row (find? (λ folder. has_substring row.file_name folder) active_folders)

-- A line of the log of Offered Capacity Evolution.
unfoldable pub oce_record : List Text → LogRow → List LogRecord
oce_record active_folders row =
    if row.file_name == [] || row.folder_name == []
    then []
    else (if contains active_folders row.folder_name
        then record_at row.file_name row.folder_name row.max_update_time
        else [])

abbrev pub collect : (LogRow → List LogRecord) → List LogRow → List LogRecord
collect f [] = []
collect f (row ∷ rows) = f row ++ collect f rows

-- `sort(key=max_update_time, reverse=True)`, which is stable
unfoldable pub place : LogRecord → List LogRecord → List LogRecord
place r [] = r ∷ []
place r (q ∷ qs) =
    let rest = place r qs in
    if leb q.max_update_time r.max_update_time then r ∷ q ∷ qs else q ∷ rest

unfoldable pub newest_first : List LogRecord → List LogRecord
unfolding place
newest_first [] = []
newest_first (r ∷ rs) = place r (newest_first rs)

abbrev stale_since : ℕ → Option (Option ℕ) → Bool
stale_since log_time none = true
stale_since log_time (some none) = true
stale_since log_time (some (some db_time)) = ltb db_time log_time

-- The file is new, or the log shows a later update than the database.
unfoldable pub is_stale : Dict (Option ℕ) → LogRecord → Bool
is_stale db_files r = stale_since r.max_update_time (lookup (strip_extension r.file_name) db_files)

abbrev pub leaf_of : LogRecord → Text
leaf_of r = resolve_exact_fms_folder r.folder_name r.file_name

-- The loop over the records; `consecutive` files before this one were up to date. It stops at three.
unfoldable pub scan : Dict (Option ℕ) → ℕ → List LogRecord → Dirty → Dirty
unfolding is_stale mark
scan db_files consecutive [] dirty = dirty
scan db_files consecutive (r ∷ rs) dirty =
    let marked = scan db_files 0 rs (mark r.folder_name (leaf_of r) dirty) in
    let further = scan db_files (consecutive + 1) rs dirty in
    if is_stale db_files r then marked else (if leb 3 (consecutive + 1) then dirty else further)

pub record Known : Type 0 where
  pub active_folders : List Text
  -- `name` and `last_updated` of the environment's files, `folder_path` and `crawled_at` of its folders
  pub file_rows : List (Text × Option ℕ)
  pub folder_rows : List (Text × Option ℕ)

unfoldable pub dirty_folders_to_leafs : Known → List LogRow → List LogRow → Dirty
unfolding db_files_of folder_crawled_at mark_uncrawled std_record oce_record newest_first scan
dirty_folders_to_leafs k std_log oce_log =
    let db_files = db_files_of k.file_rows [] in
    let uncrawled = mark_uncrawled (folder_crawled_at k.folder_rows []) k.active_folders [] in
    let std = newest_first (collect (std_record k.active_folders) std_log) in
    let oce = newest_first (collect (oce_record k.active_folders) oce_log) in
    scan db_files 0 oce (scan db_files 0 std uncrawled)
