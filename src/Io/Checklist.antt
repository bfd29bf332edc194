-- ===== src/Io/Checklist.antt =====
-- src/entsoe_pipeline/io/core/config_parser.py. A YAML value of a folder is `disabled` for `false`,
-- `files` for a list of names, `enabled` for `true`, and `other_value` for anything else.
use entsoe_pipeline.Prelude.{
  Option, none, some, List, [], ◌∷◌, Text, ◌==◌, upper, Dict, insert, if◌then◌else◌,
}

pub data Selection : Type 0 where
  disabled enabled other_value : Selection
  files : List Text → Selection

-- `domains` is empty where the YAML has no such key, and so is `folders`.
pub record RootDirectory : Type 0 where
  pub name : Text
  pub domains : Dict (Dict Selection)
  pub folders : Dict Selection

-- The value of `environments`.
abbrev pub DomainsConfig : Type 0
DomainsConfig = Dict (List RootDirectory)

-- `if val is not False: active_folders[folder] = val`
unfoldable pub add_active : Text → Selection → Dict Selection → Dict Selection
add_active folder disabled active = active
add_active folder enabled active = insert folder enabled active
add_active folder other_value active = insert folder other_value active
add_active folder (files names) active = insert folder (files names) active

unfoldable pub add_folders : Dict Selection → Dict Selection → Dict Selection
unfolding add_active
add_folders [] active = active
add_folders ((folder, val) ∷ rest) active = add_folders rest (add_active folder val active)

unfoldable pub add_domains : Dict (Dict Selection) → Dict Selection → Dict Selection
unfolding add_folders
add_domains [] active = active
add_domains ((_, folders) ∷ rest) active = add_domains rest (add_folders folders active)

unfoldable pub add_root_dirs : List RootDirectory → Dict Selection → Dict Selection
unfolding add_domains
add_root_dirs [] active = active
add_root_dirs (rdir ∷ rest) active =
    add_root_dirs rest (add_folders rdir.folders (add_domains rdir.domains active))

-- The first key that matches, whatever its case; an empty key counts as no match.
unfoldable pub matching_env {ℓ} : {V : Type ℓ} → Text → Dict V → Option V
matching_env env_name [] = none
matching_env env_name ((k, v) ∷ rest) =
    let other = matching_env env_name rest in
    let here = if k == [] then none else some v in if upper k == upper env_name then here else other

unfoldable pub extract_active_folders : Text → DomainsConfig → Dict Selection
unfolding add_root_dirs matching_env
extract_active_folders env_name environments = elim (matching_env env_name environments) [
  | none ↦ []
  | some root_dirs ↦ add_root_dirs root_dirs []
]
