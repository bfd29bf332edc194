-- ===== src/Crawler/Sessions.antt =====
-- src/entsoe_pipeline/fms_metadata/core/domain_metadata_crawler.py and legacy_metadata_crawler.py: what
-- the crawlers visit, over the tables of one environment.
pub mod Frame
pub mod Stable
pub mod Legacy
use entsoe_pipeline.Prelude.{
  ℕ, Bool, Option, none, some, List, [], ◌∷◌, filter, Text, text, contains, if◌then◌else◌,
}
use entsoe_pipeline.Classifier.{ClassifierConfig, LegacyRule}
use entsoe_pipeline.JobConfig.{Overview}
use entsoe_pipeline.Api.Listing.Sorting.{RawItem}
use entsoe_pipeline.FolderMap.Parser.{
  Read, folders_read, no_overview, no_environment, no_root, rule_for, get_domain_folders,
  get_legacy_archive_folders,
}
use entsoe_pipeline.Crawler.{FmsTables, Services, CrawlResult, completed, raised, crawl_folders}
use entsoe_pipeline.Crawler.Folder.{fetch_root_files_mapping, crawl_metadata_folder}

pub record World : Type 0 where
  pub config : ClassifierConfig
  pub overview : Option Overview
  pub active_environment : Text
  -- whether a client of this environment can be made
  pub client_works : Text → Bool
  -- the answers of this environment's FMS
  pub page : Text → Text → ℕ → ℕ → Option (List RawItem)
  pub pages : ℕ
  pub depth : ℕ
  pub extensions : List Text
  pub xxh3_128 : Text → Text
  pub database_works : Text → Bool
  pub now : Text → ℕ

abbrev pub env_or_active : Option Text → Text → Text
env_or_active none active = active
env_or_active (some env) active = env

abbrev pub crawl_read : Read → (List Text → FmsTables → CrawlResult) → FmsTables → CrawlResult
crawl_read (folders_read folders) k s = k folders s
crawl_read no_overview k s = completed s
crawl_read no_environment k s = completed s
crawl_read no_root k s = completed s

-- The archive's folders, of those that are asked for.
abbrev pub intersect : Option (List Text) → List Text → List Text
intersect none archive_folders = archive_folders
intersect (some folders) archive_folders = filter (contains archive_folders) folders

abbrev pub crawl_some : (List Text → FmsTables → CrawlResult) → List Text → FmsTables → CrawlResult
crawl_some k [] s = completed s
crawl_some k (folder ∷ folders) s = k (folder ∷ folders) s

abbrev pub with_legacy_rule : Option LegacyRule → CrawlResult → CrawlResult → CrawlResult
with_legacy_rule none absent present = absent
with_legacy_rule (some rule) absent present = present

abbrev pub after_crawl : CrawlResult → (FmsTables → CrawlResult) → CrawlResult
after_crawl (completed s) k = k s
after_crawl (raised s) k = raised s

module _ (w : World) where
  -- The crawl of a folder below one root, whose own files are listed once.
  abbrev pub services_of : Text → Text → Services
  services_of env root_dir =
      let root_files_by_name =
        fetch_root_files_mapping w.xxh3_128 (w.page env) w.pages w.depth root_dir in
      record {
        crawl_metadata_folder =
            crawl_metadata_folder w.xxh3_128 (w.page env) w.pages w.depth w.extensions
              root_files_by_name root_dir;
        database_works = w.database_works;
        now = w.now;
      }

  abbrev pub domain_folders_or : Option (List Text) → Text → Text → Read
  domain_folders_or none domain_name env = get_domain_folders w.overview domain_name env
  domain_folders_or (some folders) domain_name env = folders_read folders

  abbrev pub crawl_with_client : Text → Text → Text → List Text → FmsTables → CrawlResult
  crawl_with_client env domain root_dir folders s =
      if w.client_works env
      then crawl_folders (services_of env root_dir) domain root_dir folders s
      else completed s

  unfoldable pub ingest_domain_metadata :
      Text → Option Text → Option (List Text) → FmsTables → CrawlResult
  unfolding crawl_folders
  ingest_domain_metadata domain_name env folders s =
      let env_name = env_or_active env w.active_environment in
      crawl_read (domain_folders_or folders domain_name env_name)
        (crawl_with_client env_name domain_name (text "TP_export")) s

  unfoldable pub ingest_legacy_metadata :
      Text → Option Text → Option (List Text) → FmsTables → CrawlResult
  unfolding crawl_folders
  ingest_legacy_metadata archive_name env folders s =
      let env_name = env_or_active env w.active_environment in
      with_legacy_rule (rule_for archive_name w.config.legacy_rules) (completed s) (
        crawl_read (get_legacy_archive_folders w.config w.overview archive_name env_name)
          (λ archive_folders.
            crawl_some (crawl_with_client env_name archive_name (text "TP_Legacy_Publications"))
              (intersect folders archive_folders))
          s)

  unfoldable pub ingest_all_legacy_metadata :
      Option Text → Option (List Text) → FmsTables → CrawlResult
  unfolding ingest_legacy_metadata
  ingest_all_legacy_metadata env folders s =
      after_crawl (ingest_legacy_metadata (text "R3_Archives") env folders s) (λ t.
        after_crawl (ingest_legacy_metadata (text "R2_Archives") env folders t)
          (ingest_legacy_metadata (text "R1_Archives_CSV_XML") env folders))
