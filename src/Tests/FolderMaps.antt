-- ===== src/Tests/FolderMaps.antt =====
-- An overview of four folders under a classifier of two domains and three legacy rules.
use entsoe_pipeline.Prelude.{
  ◌≡◌, ◌⊎◌, refl, true, false, ◌&&◌, ◌||◌, some, List, [], ◌∷◌, Text, text, ◌==◌, contains,
  starts_with, has_substring, lower, upper, lookup, insert, if◌then◌else◌, Dict,
}
use entsoe_pipeline.Prelude.Texts.Order.{text_le, sorted, sorted_set, count, IsOrdered}
use entsoe_pipeline.Io.Checklist.{matching_env}
use entsoe_pipeline.Classifier.{ClassifierItem, ClassifierConfig, LegacyRule, classify_folder}
use entsoe_pipeline.JobConfig.{OverviewRoot, Overview}
use entsoe_pipeline.Api.Listing.{Listed, listed}
use entsoe_pipeline.FolderMap.{
  Fetched, fetched, key_error, fetch_environment_metadata, environment_of, sort_groups,
}
use entsoe_pipeline.FolderMap.Parser.{
  in_overview, folders_read, get_legacy_archive_folders, rule_for,
}
use entsoe_pipeline.FolderMap.Archives.{
  has_folder, get_legacy_archive_folders_lem, get_legacy_archive_folders-covers,
}
use entsoe_pipeline.FolderMap.Grouping.{all_known, sorted_group, fetch_environment_metadata_lem}
use entsoe_pipeline.FolderMap.Drift.{
  Collected, collected, ingest_overview_metadata, collect, Publication,
  generate_unseen_publications_report,
}
use entsoe_pipeline.FolderMap.Drift.Agreement.{Agrees, ingest_overview_metadata-Agrees}

abbrev rule : Text → Text → LegacyRule
rule archive pattern = record {
  archive = archive;
  release_name = text "R";
  decommission_status = [];
  description = [];
  patterns = pattern ∷ [];
}

abbrev item : Text → ClassifierItem
item fms_name = record { name = text "n"; fms_name = fms_name }

abbrev r1_rule : LegacyRule
r1_rule = rule (text "R1_Archives_CSV_XML") (text "csv")

abbrev config : ClassifierConfig
config = record {
  domain_order = text "Load" ∷ text "OtherMarketInformation" ∷ [];
  fallback_domain = text "OtherMarketInformation";
  domains =
      (text "Load", (text "load", item (text "Load")) ∷ [])
      ∷ (text "OtherMarketInformation", (text "f", item (text "LoadF")) ∷ [])
      ∷ [];
  legacy_rules =
      r1_rule
      ∷ rule (text "R2_Archives") (text "_r2")
      ∷ rule (text "R3_Archives") (text "_r3")
      ∷ [];
}

abbrev ls : Text → Text → Listed Text
ls env_name path =
    if path == text "/TP_export/"
    then listed (text "X" ∷ text "LoadF" ∷ text "Load" ∷ []) 1
    else listed (text "a_R3" ∷ text "b" ∷ []) 1

abbrev legacy_root : OverviewRoot
legacy_root = record {
  name = text "TP_Legacy_Publications";
  domains = [];
  folders = text "a_R3" ∷ text "b" ∷ [];
}

abbrev overview : Overview
overview = (text "Prod", legacy_root ∷ []) ∷ []

root_read :
    in_overview (some overview) (text "PROD") (text "TP_Legacy_Publications") (λ r. r.folders)
    ≡ folders_read (text "a_R3" ∷ text "b" ∷ [])
unfolding matching_env upper ◌==◌
root_read = refl

rule_found : rule_for (text "R1_Archives_CSV_XML") config.legacy_rules ≡ some r1_rule
unfolding lower ◌==◌
rule_found = refl

get_legacy_archive_folders_run :
    get_legacy_archive_folders config (some overview) (text "R1_Archives_CSV_XML") (text "prod")
    ≡ folders_read (text "b" ∷ [])
unfolding get_legacy_archive_folders matching_env upper ◌==◌ has_substring starts_with lower
    contains sorted_set
get_legacy_archive_folders_run = refl

get_legacy_archive_folders_lem_example :
    (folders : List Text) × (get_legacy_archive_folders config
        (some overview)
        (text "R1_Archives_CSV_XML")
        (text "PROD")
      ≡ folders_read folders)
    × IsOrdered folders
    × (count (text "b") folders ≡ (
        if contains (text "a_R3" ∷ text "b" ∷ []) (text "b") && has_folder config r1_rule (text "b")
        then 1
        else 0))
get_legacy_archive_folders_lem_example =
    get_legacy_archive_folders_lem config (some overview) (text "R1_Archives_CSV_XML") (text "PROD")
      (text "b") (text "a_R3" ∷ text "b" ∷ []) r1_rule root_read rule_found

get_legacy_archive_folders-covers_example :
    (r1 r2 r3 : List Text) × (get_legacy_archive_folders config
        (some overview)
        (text "R1_Archives_CSV_XML")
        (text "PROD")
      ≡ folders_read r1)
    × (get_legacy_archive_folders config (some overview) (text "R2_Archives") (text "PROD")
        ≡ folders_read r2)
    × (get_legacy_archive_folders config (some overview) (text "R3_Archives") (text "PROD")
        ≡ folders_read r3)
    × ((contains r1 (text "b") || (contains r2 (text "b") || contains r3 (text "b")))
        ≡ contains (text "a_R3" ∷ text "b" ∷ []) (text "b"))
unfolding lower ◌==◌
get_legacy_archive_folders-covers_example =
    get_legacy_archive_folders-covers config (some overview) (text "PROD") (text "b")
      (text "a_R3" ∷ text "b" ∷ []) r1_rule root_read rule_found refl refl refl

fetch_environment_metadata_lem_example :
    ((all_known config (text "X" ∷ text "LoadF" ∷ text "Load" ∷ []) ≡ true)
      × ((groups : Dict (List Text)) × (fetch_environment_metadata config
              (ls (text "IOP"))
              (text "IOP")
            ≡ fetched (
                environment_of
                  (text "IOP")
                  (text "X" ∷ text "LoadF" ∷ text "Load" ∷ [])
                  (text "a_R3" ∷ text "b" ∷ [])
                  groups))
          × (lookup (text "Load") (sort_groups groups)
              ≡ sorted_group config (text "Load") (text "X" ∷ text "LoadF" ∷ text "Load" ∷ []))))
    ⊎ ((all_known config (text "X" ∷ text "LoadF" ∷ text "Load" ∷ []) ≡ false)
        × (fetch_environment_metadata config (ls (text "IOP")) (text "IOP") ≡ key_error))
unfolding ◌==◌
fetch_environment_metadata_lem_example =
    fetch_environment_metadata_lem config (ls (text "IOP")) (text "IOP") (text "Load")
      (text "X" ∷ text "LoadF" ∷ text "Load" ∷ []) (text "a_R3" ∷ text "b" ∷ []) 1 1 refl refl

-- A fallback domain that is no domain of the order
fetch_environment_metadata_raises :
    fetch_environment_metadata
      (record config { domain_order = text "Load" ∷ [] })
      (ls (text "IOP"))
      (text "IOP")
    ≡ key_error
unfolding fetch_environment_metadata ◌==◌ classify_folder starts_with lower lookup insert
fetch_environment_metadata_raises = refl

abbrev active_root : OverviewRoot
active_root = record {
  name = text "TP_export";
  domains =
      (text "Load", text "Load" ∷ text "LoadF" ∷ [])
      ∷ (text "OtherMarketInformation", text "X" ∷ [])
      ∷ [];
  folders = [];
}

abbrev both : Overview
both =
    (text "IOP", active_root ∷ legacy_root ∷ [])
    ∷ (text "Prod", active_root ∷ legacy_root ∷ [])
    ∷ []

ingest_run : ingest_overview_metadata config ls ≡ collected (collect config both)
unfolding ingest_overview_metadata fetch_environment_metadata ◌==◌ classify_folder starts_with lower
    lookup insert sorted text_le
ingest_run = refl

ingest_overview_metadata-Agrees_example : Agrees config (text "LoadF") (collect config both)
ingest_overview_metadata-Agrees_example =
    ingest_overview_metadata-Agrees config ls (collect config both) (text "LoadF") ingest_run

-- A name that only a later domain has is unseen for the collection and seen for the script.
reports_differ :
    ((collect config both).unseen
      ≡ record {
        domain = text "OtherMarketInformation";
        key = text "f";
        name = text "n";
        fms_name = text "LoadF";
      }
        ∷ [])
    × (generate_unseen_publications_report config both ≡ [])
unfolding generate_unseen_publications_report ◌==◌ starts_with lower contains sorted_set text_le
    entsoe_pipeline.FolderMap.Drift.detect_drift
reports_differ = (refl, refl)
