-- ===== src/Refresh.antt =====
-- jobs/refresh_fms_metadata.py and src/entsoe_pipeline/fms_metadata/ingestion/fms_metadata_ingest.py:
-- which domains and archives a full refresh of one environment visits, over the tables of that
-- environment. An exception ends the run with the tables as they are then.
pub mod Entries
pub mod Domains
pub mod Agreement
use entsoe_pipeline.Prelude.{
  ℕ, Bool, true, false, not, ◌&&◌, ◌||◌, Option, none, some, List, [], ◌∷◌, ◌++◌, map, filter,
  find?, Text, text, ◌==◌, contains, lower, upper, nat_eq, leb, if◌then◌else◌,
}
use entsoe_pipeline.FolderMap.Parser.{
  Read, folders_read, no_overview, no_environment, no_root, get_domain_folders,
  get_legacy_archive_folders,
}
use entsoe_pipeline.Crawler.{FmsTables, CrawlResult, completed, raised}
use entsoe_pipeline.Crawler.Freshness.{filter_fresh_folders}
use entsoe_pipeline.Crawler.Sessions.{
  World, after_crawl, ingest_domain_metadata, ingest_all_legacy_metadata,
}

abbrev pub light_domains : List Text
light_domains = text "Load" ∷ text "Generation" ∷ text "OtherMarketInformation" ∷ []

-- The times of the checks, by the domain or archive they are for, and the age limit
pub record Ages : Type 0 where
  pub now : Text → ℕ
  pub max_age_days : ℕ

-- A list that is read, or the exception.
abbrev pub with_read : Read → FmsTables → (List Text → CrawlResult) → CrawlResult
with_read (folders_read folders) s k = k folders
with_read no_overview s k = raised s
with_read no_environment s k = raised s
with_read no_root s k = raised s

abbrev pub if_any : List Text → FmsTables → (List Text → CrawlResult) → CrawlResult
if_any [] s k = completed s
if_any (folder ∷ folders) s k = k (folder ∷ folders)

module _ (w : World) (ages : Ages) (env : Text) (is_force : Bool) where
  -- The folders of a list that are due
  abbrev pub due : Text → FmsTables → List Text → List Text
  due name s folders =
      filter_fresh_folders (ages.now name) ages.max_age_days
        (map (λ (path, row). (path, row.crawled_at)) s.folders) folders is_force

  -- `get_stale_domain_folders`, and the crawl of what it gives
  unfoldable pub crawl_domain : Text → FmsTables → CrawlResult
  unfolding get_domain_folders filter_fresh_folders ingest_domain_metadata
  crawl_domain domain s = with_read (get_domain_folders w.overview domain env) s (λ folders.
      if_any (due domain s folders) s
        (λ stale. ingest_domain_metadata w domain (some env) (some stale) s))

  unfoldable pub crawl_domains : List Text → FmsTables → CrawlResult
  unfolding crawl_domain
  crawl_domains [] s = completed s
  crawl_domains (domain ∷ domains) s = after_crawl (crawl_domain domain s) (crawl_domains domains)

  -- `get_stale_legacy_folders` of each archive, before anything is crawled
  unfoldable pub stale_legacy :
      List Text → FmsTables → List Text → (List Text → CrawlResult) → CrawlResult
  unfolding get_legacy_archive_folders filter_fresh_folders
  stale_legacy [] s stale k = k stale
  stale_legacy (archive ∷ archives) s stale k =
      with_read (get_legacy_archive_folders w.config w.overview archive env) s
        (λ folders. stale_legacy archives s (stale ++ due archive s folders) k)

  unfoldable pub crawl_legacy : FmsTables → CrawlResult
  unfolding stale_legacy ingest_all_legacy_metadata
  crawl_legacy s =
      stale_legacy (text "R3_Archives" ∷ text "R2_Archives" ∷ text "R1_Archives_CSV_XML" ∷ []) s []
        (λ stale. if_any stale s (λ fs. ingest_all_legacy_metadata w (some env) (some fs) s))
