-- ===== src/FolderMap.antt =====
-- src/entsoe_pipeline/fms_metadata/core/ftp_map_collector.py: the folders of an environment by domain,
-- as the overview keeps them. Listings of the FMS are a parameter.
pub mod Parser
pub mod Archives
pub mod Grouping
pub mod Drift
use entsoe_pipeline.Prelude.{
  ◌≡◌, ℕ, ◌+◌, Option, none, some, List, [], ◌∷◌, ◌++◌, map, length, Text, text, ◌==◌, Dict, lookup,
  insert, if◌then◌else◌,
}
use entsoe_pipeline.Prelude.Texts.Order.{sorted}
use entsoe_pipeline.Classifier.{ClassifierConfig, classify_folder}
use entsoe_pipeline.JobConfig.{OverviewRoot}
use entsoe_pipeline.Api.Listing.{Listed, listed, api_error, out_of_fuel}

pub record RootMetadata : Type 0 where
  pub root : OverviewRoot
  pub description : Text
  pub item_count : ℕ

pub record EnvironmentMetadata : Type 0 where
  pub description : Text
  pub root_directories : List RootMetadata

-- `{domain: [] for domain in domain_order}`, into a dict that is there
unfoldable pub add_empty : List Text → Dict (List Text) → Dict (List Text)
add_empty [] groups = groups
add_empty (domain ∷ domains) groups = add_empty domains (insert domain [] groups)

-- `grouped_domains[domain].append(folder)`; a missing key is a `KeyError` (`none`).
unfoldable pub append_folder : Text → Text → Dict (List Text) → Option (Dict (List Text))
append_folder domain folder groups = elim (lookup domain groups) [
  | none ↦ none
  | some folders ↦ some (insert domain (folders ++ (folder ∷ [])) groups)
]

abbrev pub then_groups :
    Option (Dict (List Text))
    → (Dict (List Text) → Option (Dict (List Text)))
    → Option (Dict (List Text))
then_groups none k = none
then_groups (some groups) k = k groups

unfoldable pub group_folders :
    ClassifierConfig → List Text → Dict (List Text) → Option (Dict (List Text))
unfolding append_folder
group_folders config [] groups = some groups
group_folders config (folder ∷ folders) groups =
    then_groups (append_folder (classify_folder config folder) folder groups)
      (group_folders config folders)

-- `folders.sort()` in every domain
abbrev pub sort_groups : Dict (List Text) → Dict (List Text)
sort_groups [] = []
sort_groups ((domain, folders) ∷ groups) = (domain, sorted folders) ∷ sort_groups groups

-- What the collection ends with: the metadata, a `KeyError`, or the exception of a listing.
pub data Fetched : Type 0 where
  fetched : EnvironmentMetadata → Fetched
  key_error listing_error : Fetched

abbrev pub environment_of : Text → List Text → List Text → Dict (List Text) → EnvironmentMetadata
environment_of env_name active_folders legacy_folders groups = record {
  description =
      if env_name == text "PROD"
      then text "ENTSO-E Production Platform"
      else text "ENTSO-E Integration/Test Platform";
  root_directories =
      record {
        root = record { name = text "TP_export"; domains = sort_groups groups; folders = [] };
        description = text "Active publications folder";
        item_count = length active_folders;
      }
      ∷ record {
        root = record {
          name = text "TP_Legacy_Publications";
          domains = [];
          folders = sorted legacy_folders;
        };
        description = text "Legacy publications folder";
        item_count = length legacy_folders;
      }
      ∷ [];
}

abbrev pub with_groups : Text → List Text → List Text → Option (Dict (List Text)) → Fetched
with_groups env_name active_folders legacy_folders none = key_error
with_groups env_name active_folders legacy_folders (some groups) =
    fetched (environment_of env_name active_folders legacy_folders groups)

abbrev pub with_listing : Listed Text → (List Text → Fetched) → Fetched
with_listing (listed folders calls) k = k folders
with_listing (api_error calls) k = listing_error
with_listing out_of_fuel k = listing_error

module _ (config : ClassifierConfig) (ls : Text → Listed Text) where
  unfoldable pub fetch_environment_metadata : Text → Fetched
  unfolding group_folders add_empty
  fetch_environment_metadata env_name = with_listing (ls (text "/TP_export/")) (λ active_folders.
      with_listing (ls (text "/TP_Legacy_Publications/")) (λ legacy_folders.
        with_groups env_name active_folders legacy_folders
          (group_folders config active_folders (add_empty config.domain_order []))))
