-- ===== src/Classifier.antt =====
-- src/entsoe_pipeline/config/core/classifier.py and fms_metadata/core/domain_classifier.py: the
-- publications that are known, by domain and key, the rules of the legacy archives, and the domain of
-- a folder.
use entsoe_pipeline.Prelude.{
  Bool, true, false, none, some, List, [], ◌∷◌, map, filter, any, Text, text, lower, starts_with,
  Dict, lookup, if◌then◌else◌,
}

pub record ClassifierItem : Type 0 where
  pub name : Text
  pub fms_name : Text

pub record LegacyRule : Type 0 where
  pub archive : Text
  pub release_name : Text
  pub decommission_status : Text
  pub description : Text
  pub patterns : List Text

pub record ClassifierConfig : Type 0 where
  pub domain_order : List Text
  pub fallback_domain : Text
  pub domains : Dict (Dict ClassifierItem)
  pub legacy_rules : List LegacyRule

-- `folder_name.lower().startswith(item.fms_name.lower())` for some item
unfoldable pub matches_items : Text → Dict ClassifierItem → Bool
unfolding lower starts_with
matches_items folder_name items =
    any (λ (_, item). starts_with (lower folder_name) (lower item.fms_name)) items

unfoldable pub classify_in : Text → Text → Dict (Dict ClassifierItem) → Text
unfolding matches_items
classify_in fallback folder_name [] = fallback
classify_in fallback folder_name ((domain, items) ∷ rest) =
    let other = classify_in fallback folder_name rest in
    if matches_items folder_name items then domain else other

unfoldable pub classify_folder : ClassifierConfig → Text → Text
unfolding classify_in
classify_folder config folder_name = classify_in config.fallback_domain folder_name config.domains

-- A mapping of the YAML whose values are text.
abbrev pub Entry : Type 0
Entry = Dict Text

-- `str(entry.get(key, ""))`
abbrev pub value_or_empty : Text → Entry → Text
value_or_empty key entry = elim (lookup key entry) [ none ↦ [] | some v ↦ v ]

abbrev pub item_of : Entry → ClassifierItem
item_of val = record {
  name = value_or_empty (text "name") val;
  fms_name = value_or_empty (text "fms_name") val;
}

-- An archive of the legacy file: its own values and those of its publications.
pub record ArchiveInfo : Type 0 where
  pub info : Entry
  pub publications : Dict Entry

abbrev is_not_empty : Text → Bool
is_not_empty [] = false
is_not_empty (c ∷ s) = true

abbrev pub rule_of : Text × ArchiveInfo → LegacyRule
rule_of (archive_name, archive) = record {
  archive = archive_name;
  release_name = value_or_empty (text "release_name") archive.info;
  decommission_status = value_or_empty (text "decommission_status") archive.info;
  description = value_or_empty (text "description") archive.info;
  patterns =
      filter is_not_empty
        (map (λ (_, pub_info). value_or_empty (text "fms_name") pub_info) archive.publications);
}

-- The two files, after reading; the keys of a YAML mapping are distinct.
unfoldable pub from_yaml : Dict (Dict Entry) → Dict ArchiveInfo → ClassifierConfig
unfolding lookup
from_yaml raw_domains raw_archives = record {
  domain_order = map (λ (domain, _). domain) raw_domains;
  fallback_domain = text "OtherMarketInformation";
  domains =
      map (λ (domain, items). (domain, map (λ (key, val). (key, item_of val)) items)) raw_domains;
  legacy_rules = map rule_of raw_archives;
}
