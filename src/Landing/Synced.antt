-- ===== src/Landing/Synced.antt =====
-- From the crawl of a folder to the gateway, through the landing job.
use mathlib.Core.List.{Memᴰ}
use mathlib.Core.List.Memᴰ
use entsoe_pipeline.Prelude.{
  ◌≡◌, true, Option, text, ◌==◌, contains, if◌then◌else◌, List, [], ◌∷◌, Text, lower, join,
}
use entsoe_pipeline.Classifier.{ClassifierConfig}
use entsoe_pipeline.Io.Remote.{FileMeta, ends_with_any}
use entsoe_pipeline.Io.Schema.{TargetMapping}
use entsoe_pipeline.Lakehouse.Attempts.{PendingRow}
use entsoe_pipeline.Lakehouse.Gateway.{admit_row, admit_name, resolve_fms_name}
use entsoe_pipeline.Landing.{FolderRecord}

-- The folder that is listed for a request: the root for the name of a file.
abbrev pub listed : List Text → Text → Text
listed extensions request = if ends_with_any request extensions then [] else request

-- Where a file is asked for, and what the gateway does with its row, when its folder is known.
abbrev pub AdmittedAs :
    List Text
    → ClassifierConfig
    → PendingRow
    → FolderRecord
    → Text
    → Text
    → TargetMapping
    → FileMeta
    → Type 0
AdmittedAs extensions classifier pending row root_dir folder_name m f =
    (m.top_level_folder ≡ root_dir)
    × (f.remote_folder
        ≡ listed extensions (
            if root_dir == text "TP_export"
            then m.active_folder
            else join b'/' (row.domain ∷ folder_name ∷ [])))
    × (contains (lower row.environment ∷ root_dir ∷ row.domain ∷ folder_name ∷ []) m.active_folder
        ≡ true)
    × (admit_row classifier pending
        ≡ admit_name pending row.domain (resolve_fms_name classifier row.domain folder_name))
