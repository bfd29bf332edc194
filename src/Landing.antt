-- ===== src/Landing.antt =====
-- src/entsoe_pipeline/fms_metadata/ingestion/landing_bucket_schema.py and
-- config/config_loader.py (`get_landing_bucket_schema`): the paths of the landing bucket, from the
-- rows of `fms_folders`.
pub mod Schema
pub mod Admitted
pub mod Resolved
pub mod Synced
use entsoe_pipeline.Prelude.{
  Option, none, some, List, [], ◌∷◌, ◌++◌, map, Text, lower, split, strip, Dict, insert,
}

-- The columns of `fms_folders` that are selected.
pub record FolderRecord : Type 0 where
  pub environment : Text
  pub domain : Text
  pub folder_path : Text

-- A row of `landing_folders_schema` under its key `s3_folder_path`.
pub record SchemaRow : Type 0 where
  pub environment : Text
  pub domain : Text
  pub folder_name : Text

-- `f"{env.lower()}/{root_dir}/{domain}/{folder_name}"`
abbrev pub s3_path : Text → Text → Text → Text → Text
s3_path env root_dir domain folder_name =
    lower env ++ (b'/' ∷ root_dir ++ (b'/' ∷ domain ++ (b'/' ∷ folder_name)))

-- A row whose path has fewer than two parts is passed over.
abbrev pub schema_row_of : FolderRecord → List Text → Option (Text × SchemaRow)
schema_row_of row (root_dir ∷ folder_name ∷ _) = some (
  s3_path row.environment root_dir row.domain folder_name,
  record { environment = lower row.environment; domain = row.domain; folder_name = folder_name },
)
schema_row_of row _ = none

abbrev pub schema_row : FolderRecord → Option (Text × SchemaRow)
schema_row row = schema_row_of row (split b'/' (strip b'/' row.folder_path))

abbrev pub push_row : Option (Text × SchemaRow) → List (Text × SchemaRow) → List (Text × SchemaRow)
push_row none rows = rows
push_row (some r) rows = r ∷ rows

unfoldable pub folders_to_insert : List FolderRecord → List (Text × SchemaRow)
folders_to_insert [] = []
folders_to_insert (row ∷ rows) = push_row (schema_row row) (folders_to_insert rows)

-- `{x["s3_folder_path"]: x for x in folders_to_insert}`
unfoldable pub unique_folders : List (Text × SchemaRow) → Dict SchemaRow → Dict SchemaRow
unique_folders [] unique = unique
unique_folders ((path, row) ∷ rows) unique = unique_folders rows (insert path row unique)

-- The old rows stay where there is none to insert.
abbrev pub replace_rows : List (Text × SchemaRow) → Dict SchemaRow → Dict SchemaRow
replace_rows [] old = old
replace_rows (r ∷ rows) old = unique_folders (r ∷ rows) []

-- The table `landing_folders_schema` after the run.
unfoldable pub build_landing_bucket_schema : List FolderRecord → Dict SchemaRow → Dict SchemaRow
unfolding folders_to_insert unique_folders
build_landing_bucket_schema rows old = replace_rows (folders_to_insert rows) old

-- `[row[0] for row in rows]`
unfoldable pub get_landing_bucket_schema : Dict SchemaRow → List Text
get_landing_bucket_schema table = map (λ (path, _). path) table
