-- ===== src/FolderMap/Drift.antt =====
-- src/entsoe_pipeline/fms_metadata/core/ftp_map_collector.py (ingest_overview_metadata) and the two
-- reports of fms_metadata/ingestion/undocumented_folders.py and unseen_publications.py: folders that
-- the classifier does not know, and publications that the FMS does not have.
pub mod Reports
pub mod Agreement
use entsoe_pipeline.Prelude.{
  ◌≡◌, Bool, not, Option, none, some, List, [], ◌∷◌, ◌++◌, map, filter, any, Text, text, ◌==◌,
  contains, lower, starts_with, Dict, if◌then◌else◌,
}
use entsoe_pipeline.Prelude.Texts.Order.{sorted_set}
use entsoe_pipeline.Classifier.{ClassifierItem, ClassifierConfig, matches_items}
use entsoe_pipeline.JobConfig.{OverviewRoot, Overview}
use entsoe_pipeline.Api.Listing.{Listed}
use entsoe_pipeline.FolderMap.{
  EnvironmentMetadata, Fetched, fetched, key_error, listing_error, fetch_environment_metadata,
}

abbrev pub domain_folders : Dict (List Text) → List Text
domain_folders [] = []
domain_folders ((_, folders) ∷ domains) = folders ++ domain_folders domains

abbrev pub export_folders : List OverviewRoot → List Text
export_folders [] = []
export_folders (root ∷ roots) =
    (if root.name == text "TP_export" then domain_folders root.domains else [])
    ++ export_folders roots

-- The folders below TP_export of every environment, before they are a sorted set.
unfoldable pub active_folders : Overview → List Text
active_folders [] = []
active_folders ((_, roots) ∷ environments) = export_folders roots ++ active_folders environments

-- The inner loop, which ends at the first item of a domain whose name begins the folder's.
unfoldable pub first_item : Text → Dict ClassifierItem → Option Text
first_item folder [] = none
first_item folder ((_, item) ∷ items) =
    let other = first_item folder items in
    if starts_with (lower folder) (lower item.fms_name) then some item.fms_name else other

abbrev pub or_else : Option Text → Option Text → Option Text
or_else none other = other
or_else (some name) other = some name

-- With the second `break`: the first domain that has such an item ends the search.
unfoldable pub first_domain_item : Text → Dict (Dict ClassifierItem) → Option Text
unfolding first_item
first_domain_item folder [] = none
first_domain_item folder ((_, items) ∷ domains) =
    or_else (first_item folder items) (first_domain_item folder domains)

abbrev pub option_names : Option Text → List Text
option_names none = []
option_names (some name) = name ∷ []

-- Without it: every domain adds its first item.
unfoldable pub domain_items : Text → Dict (Dict ClassifierItem) → List Text
unfolding first_item
domain_items folder [] = []
domain_items folder ((_, items) ∷ domains) =
    option_names (first_item folder items) ++ domain_items folder domains

pub record Drift : Type 0 where
  pub undocumented_folders : List Text
  pub matched_fms_names : List Text

abbrev pub add_folder : Text → Option Text → Drift → Drift
add_folder folder none drift = record drift {
  undocumented_folders = drift.undocumented_folders ++ (folder ∷ []);
}
add_folder folder (some name) drift = record drift {
  matched_fms_names = drift.matched_fms_names ++ (name ∷ []);
}

-- The loop of `ingest_overview_metadata`, which finds both at once.
unfoldable pub scan_folders : ClassifierConfig → List Text → Drift → Drift
unfolding first_domain_item
scan_folders config [] drift = drift
scan_folders config (folder ∷ folders) drift =
    scan_folders config folders (add_folder folder (first_domain_item folder config.domains) drift)

pub record Publication : Type 0 where
  pub domain : Text
  pub key : Text
  pub name : Text
  pub fms_name : Text

abbrev pub publications_in : Text → Dict ClassifierItem → List Publication
publications_in domain items =
    map
      (λ (key, item). record {
        domain = domain;
        key = key;
        name = item.name;
        fms_name = item.fms_name;
      })
      items

abbrev pub publications : Dict (Dict ClassifierItem) → List Publication
publications [] = []
publications ((domain, items) ∷ domains) = publications_in domain items ++ publications domains

-- The publications whose name no folder matched
unfoldable pub unseen_publications : ClassifierConfig → List Text → List Publication
unseen_publications config matched_fms_names =
    filter (λ p. not (contains matched_fms_names p.fms_name)) (publications config.domains)

abbrev pub no_drift : Drift
no_drift = record { undocumented_folders = []; matched_fms_names = [] }

-- The drift that the collection reports for an overview
unfoldable pub detect_drift : ClassifierConfig → Overview → Drift
unfolding scan_folders active_folders
detect_drift config overview = scan_folders config (sorted_set (active_folders overview)) no_drift

-- The flag of undocumented_folders.py: some item of some domain begins the folder's name.
abbrev pub is_matched : ClassifierConfig → Text → Bool
is_matched config folder = any (λ (_, items). matches_items folder items) config.domains

-- The report of undocumented_folders.py
unfoldable pub generate_undocumented_folders_report : ClassifierConfig → Overview → List Text
unfolding active_folders
generate_undocumented_folders_report config overview =
    filter (λ folder. not (is_matched config folder)) (sorted_set (active_folders overview))

abbrev pub matched_by : ClassifierConfig → List Text → List Text
matched_by config [] = []
matched_by config (folder ∷ folders) =
    domain_items folder config.domains ++ matched_by config folders

-- The report of unseen_publications.py
unfoldable pub generate_unseen_publications_report : ClassifierConfig → Overview → List Publication
unfolding domain_items active_folders unseen_publications
generate_unseen_publications_report config overview =
    unseen_publications config (matched_by config (sorted_set (active_folders overview)))

-- What the collection writes: the overview and the two reports.
pub record Collected : Type 0 where
  pub overview : Overview
  pub undocumented_folders : List Text
  pub unseen : List Publication

pub data Ingested : Type 0 where
  collected : Collected → Ingested
  failed : Ingested

abbrev pub roots_of : EnvironmentMetadata → List OverviewRoot
roots_of metadata = map (λ r. r.root) metadata.root_directories

abbrev pub with_fetched : Fetched → (EnvironmentMetadata → Ingested) → Ingested
with_fetched (fetched metadata) k = k metadata
with_fetched key_error k = failed
with_fetched listing_error k = failed

abbrev pub collect : ClassifierConfig → Overview → Collected
collect config overview =
    let drift = detect_drift config overview in
    record {
      overview = overview;
      undocumented_folders = drift.undocumented_folders;
      unseen = unseen_publications config drift.matched_fms_names;
    }

module _ (config : ClassifierConfig) (ls : Text → Text → Listed Text) where
  -- `ls env_name path` is the listing with the client of the environment.
  unfoldable pub ingest_overview_metadata : Ingested
  unfolding fetch_environment_metadata detect_drift unseen_publications
  ingest_overview_metadata =
      with_fetched (fetch_environment_metadata config (ls (text "IOP")) (text "IOP"))
        (λ iop_metadata.
          with_fetched (fetch_environment_metadata config (ls (text "PROD")) (text "PROD"))
            (λ prod_metadata. collected (
              collect config (
                (text "IOP", roots_of iop_metadata) ∷ (text "Prod", roots_of prod_metadata) ∷ []))))
