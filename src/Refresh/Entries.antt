-- ===== src/Refresh/Entries.antt =====
-- The two entry points: the crawl phase of the refresh job, and the ingestion script.
use entsoe_pipeline.Prelude.{
  Bool, not, ◌&&◌, ◌||◌, Option, none, some, List, [], ◌∷◌, filter, find?, Text, text, ◌==◌,
  contains, lower, upper, if◌then◌else◌,
}
use entsoe_pipeline.Crawler.{FmsTables, CrawlResult, completed, raised}
use entsoe_pipeline.Crawler.Sessions.{World, after_crawl}
use entsoe_pipeline.Prelude.Texts.Spaces.{strip_space}
use entsoe_pipeline.Refresh.{light_domains, Ages, crawl_domain, crawl_domains, crawl_legacy}

-- `domain_name.strip() if domain_name else "ALL"`
abbrev pub target_of : Option Text → Text
target_of none = text "ALL"
target_of (some []) = text "ALL"
target_of (some (c ∷ s)) = strip_space (c ∷ s)

abbrev pub is_all : Text → Bool
is_all target = lower target == text "all"

abbrev pub is_legacy : Text → Bool
is_legacy target = lower target == text "legacy"

module _ (w : World) (ages : Ages) where
  abbrev pub selected : Bool → List Text
  selected is_test =
      if is_test
      then filter (contains light_domains) w.config.domain_order
      else w.config.domain_order

  abbrev pub named : Text → List Text → List Text
  named target = filter (λ d. lower d == lower target)

  abbrev pub refresh_domains : Bool → Text → List Text
  refresh_domains is_test target =
      if is_all target || is_legacy target
      then selected is_test
      else named target (selected is_test)

  -- The second half: the legacy archives, outside the test mode.
  abbrev pub refresh_legacy : Text → Bool → Bool → Text → FmsTables → CrawlResult
  refresh_legacy env is_test is_force target s =
      if is_all target || is_legacy target
      then (if is_test then completed s else crawl_legacy w ages env is_force s)
      else completed s

  unfoldable pub refresh_environment_metadata :
      Text → Bool → Bool → Option Text → FmsTables → CrawlResult
  unfolding crawl_domains crawl_legacy strip_space
  refresh_environment_metadata env is_test is_force domain_name s =
      let target = target_of domain_name in
      after_crawl
        (if is_legacy target
          then completed s
          else crawl_domains w ages env is_force (refresh_domains is_test target) s)
        (refresh_legacy env is_test is_force target)

  -- The loop of the ingestion over all domains, which passes over the heavy ones in test mode.
  unfoldable pub ingest_domains : Text → Bool → Bool → List Text → FmsTables → CrawlResult
  unfolding crawl_domain
  ingest_domains env is_test is_force [] s = completed s
  ingest_domains env is_test is_force (dom ∷ domains) s =
      after_crawl
        (if is_test && not (contains light_domains dom)
          then completed s
          else crawl_domain w ages env is_force dom s)
        (ingest_domains env is_test is_force domains)

  -- A name that is unknown, or heavy in test mode, is a `ValueError`.
  abbrev pub ingest_one : Text → Bool → Bool → Option Text → FmsTables → CrawlResult
  ingest_one env is_test is_force none s = raised s
  ingest_one env is_test is_force (some dom) s =
      if is_test && not (contains light_domains dom)
      then raised s
      else crawl_domain w ages env is_force dom s

  unfoldable pub ingest_metadata : Text → Text → Bool → Bool → FmsTables → CrawlResult
  unfolding ingest_domains crawl_legacy crawl_domain strip_space
  ingest_metadata domain env is_test is_force s =
      let target_env = upper env in
      let target = strip_space domain in
      let legacy = λ (t : FmsTables).
        if is_test then completed t else crawl_legacy w ages target_env is_force t in
      if is_all target
      then after_crawl (ingest_domains target_env is_test is_force w.config.domain_order s) legacy
      else (if is_legacy target
          then legacy s
          else ingest_one target_env is_test is_force
              (find? (λ d. lower d == lower target) w.config.domain_order) s)
