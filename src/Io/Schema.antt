-- ===== src/Io/Schema.antt =====
-- src/entsoe_pipeline/io/core/path_resolver.py
pub mod Paths
use entsoe_pipeline.Prelude.{
  ◌≡◌, Bool, Option, none, some, List, [], ◌∷◌, Text, ◌==◌, contains, lower, split, join, Dict,
  if◌then◌else◌,
}
use entsoe_pipeline.Io.Checklist.{Selection}

pub record TargetMapping : Type 0 where
  pub schema_path : Text
  pub active_folder : Text
  pub top_level_folder : Text
  pub remote_folder_path : Text
  pub val : Selection

-- The inner loop, which stops at the first active folder among the segments.
unfoldable pub first_active : Dict Selection → List Text → Option (Text × Selection)
first_active [] segments = none
first_active ((folder, val) ∷ rest) segments =
    let other = first_active rest segments in
    if contains segments folder then some (folder, val) else other

-- `segments[1]` raises an `IndexError` (`none`) where the path has one segment.
unfoldable pub mapping_of : Text → List Text → Text × Selection → Option TargetMapping
mapping_of path (_ ∷ top_level ∷ rel) (active_folder, val) = some (record {
  schema_path = path;
  active_folder = active_folder;
  top_level_folder = top_level;
  remote_folder_path = join b'/' rel;
  val = val;
})
mapping_of path _ found = none

abbrev pub head_is : Text → List Text → Bool
head_is env_lower [] = Bool.false
head_is env_lower (s ∷ _) = s == env_lower

abbrev pub push_mapping :
    Option TargetMapping → Option (List TargetMapping) → Option (List TargetMapping)
push_mapping none rest = none
push_mapping (some m) none = none
push_mapping (some m) (some ms) = some (m ∷ ms)

-- One schema path in front of the mappings of the later ones.
unfoldable pub resolve_path :
    Text → Dict Selection → Text → Option (List TargetMapping) → Option (List TargetMapping)
unfolding first_active mapping_of
resolve_path env_lower active_folders path rest =
    let segments = split b'/' path in
    if head_is env_lower segments
    then elim (first_active active_folders segments) [
      | none ↦ rest
      | some found ↦ push_mapping (mapping_of path segments found) rest
    ]
    else rest

unfoldable pub resolve_target_mappings :
    Text → Dict Selection → List Text → Option (List TargetMapping)
unfolding resolve_path
resolve_target_mappings env_name active_folders [] = some []
resolve_target_mappings env_name active_folders (path ∷ paths) =
    resolve_path (lower env_name) active_folders path
      (resolve_target_mappings env_name active_folders paths)
