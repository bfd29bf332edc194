-- ===== src/FolderMap/Parser.antt =====
-- src/entsoe_pipeline/fms_metadata/utils/overview_parser.py: reading the overview. The file is a
-- parameter, `none` where it does not exist.
use entsoe_pipeline.Prelude.{
  Bool, ◌||◌, Option, none, some, List, [], ◌∷◌, ◌++◌, filter, any, find?, Text, text, ◌==◌,
  contains, lower, has_substring, Dict, if◌then◌else◌,
}
use entsoe_pipeline.Prelude.Texts.Order.{sorted_set}
use entsoe_pipeline.Io.Checklist.{matching_env}
use entsoe_pipeline.Classifier.{ClassifierConfig, LegacyRule}
use entsoe_pipeline.JobConfig.{OverviewRoot, Overview}

-- A result, the `FileNotFoundError`, or one of the two `ValueError`s.
pub data Read : Type 0 where
  folders_read : List Text → Read
  no_overview no_environment no_root : Read

-- `next((d for d in root_directories if d.get("name") == name), None)`
abbrev pub root_named : Text → List OverviewRoot → Option OverviewRoot
root_named name = find? (λ d. d.name == name)

-- The first key that matches, whatever its case; an empty key counts as no match.
unfoldable pub matching_domain : Text → Dict (List Text) → List Text
matching_domain domain_name [] = []
matching_domain domain_name ((k, v) ∷ rest) =
    let other = matching_domain domain_name rest in
    let here = if k == [] then [] else v in if lower k == lower domain_name then here else other

abbrev pub in_root : Option OverviewRoot → (OverviewRoot → List Text) → Read
in_root none read = no_root
in_root (some root) read = folders_read (read root)

abbrev pub in_environment : Option (List OverviewRoot) → Text → (OverviewRoot → List Text) → Read
in_environment none name read = no_environment
in_environment (some roots) name read = in_root (root_named name roots) read

-- The part that both readers share: the environment, then the root directory.
abbrev pub in_overview : Option Overview → Text → Text → (OverviewRoot → List Text) → Read
in_overview none env_name name read = no_overview
in_overview (some environments) env_name name read =
    in_environment (matching_env env_name environments) name read

unfoldable pub get_domain_folders : Option Overview → Text → Text → Read
unfolding matching_domain
get_domain_folders overview domain_name env_name =
    in_overview overview env_name (text "TP_export")
      (λ tp_export. matching_domain domain_name tp_export.domains)

-- `any(pat.lower() in folder.lower() for pat in patterns)`
unfoldable pub matches_patterns : List Text → Text → Bool
matches_patterns patterns folder = any (λ pat. has_substring (lower folder) (lower pat)) patterns

abbrev pub rule_for : Text → List LegacyRule → Option LegacyRule
rule_for archive_name = find? (λ r. lower r.archive == lower archive_name)

-- `r.patterns if r else []` for the rule of exactly this archive
abbrev pub patterns_of : Option LegacyRule → List Text
patterns_of none = []
patterns_of (some rule) = rule.patterns

abbrev pub archive_patterns : Text → List LegacyRule → List Text
archive_patterns archive rules = patterns_of (find? (λ r. r.archive == archive) rules)

-- A folder that no list has and neither pattern matches is appended.
abbrev pub add_unmatched : List Text → List Text → List Text → Text → List Text
add_unmatched r2_pats r3_pats matched folder =
    if contains matched folder
    then matched
    else if matches_patterns r2_pats folder || matches_patterns r3_pats folder
    then matched
    else matched ++ (folder ∷ [])

unfoldable pub add_fallback : List Text → List Text → List Text → List Text → List Text
unfolding matches_patterns
add_fallback r2_pats r3_pats matched [] = matched
add_fallback r2_pats r3_pats matched (folder ∷ folders) =
    add_fallback r2_pats r3_pats (add_unmatched r2_pats r3_pats matched folder) folders

abbrev pub matched_folders : ClassifierConfig → List Text → LegacyRule → List Text
matched_folders config folders rule =
    let matched = filter (matches_patterns rule.patterns) folders in
    if rule.archive == text "R1_Archives_CSV_XML"
    then add_fallback (archive_patterns (text "R2_Archives") config.legacy_rules)
        (archive_patterns (text "R3_Archives") config.legacy_rules) matched folders
    else matched

abbrev pub archive_folders : ClassifierConfig → List Text → LegacyRule → List Text
archive_folders config folders rule = sorted_set (matched_folders config folders rule)

abbrev pub with_rule : ClassifierConfig → List Text → Option LegacyRule → List Text
with_rule config folders none = []
with_rule config folders (some rule) = archive_folders config folders rule

unfoldable pub get_legacy_archive_folders : ClassifierConfig → Option Overview → Text → Text → Read
unfolding add_fallback
get_legacy_archive_folders config overview archive_name env_name =
    in_overview overview env_name (text "TP_Legacy_Publications")
      (λ tp_legacy. with_rule config tp_legacy.folders (rule_for archive_name config.legacy_rules))
