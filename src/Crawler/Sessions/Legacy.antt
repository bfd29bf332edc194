-- ===== src/Crawler/Sessions/Legacy.antt =====
-- The crawls of whole domains and archives, and the rows of the other root.
use mathlib.Core.Path.{subst}
use entsoe_pipeline.Prelude.{
  ℕ, ◌≡◌, ◌≢◌, refl, sym, ◌∙◌, true, false, Option, none, some, List, [], ◌∷◌, ◌++◌, Text, text,
  Bool-cases, inl, inr, starts_with,
}
use entsoe_pipeline.Classifier.{LegacyRule}
use entsoe_pipeline.FolderMap.Parser.{
  Read, folders_read, no_overview, no_environment, no_root, rule_for, get_legacy_archive_folders,
}
use entsoe_pipeline.Crawler.{FmsTables, CrawlResult, completed, raised, crawl_folders}
use entsoe_pipeline.Crawler.Keys.{IsKeyed, id_at, tables_of, crawl_folders-IsKeyed}
use entsoe_pipeline.Crawler.Sessions.{
  World, services_of, crawl_read, crawl_with_client, crawl_some, with_legacy_rule, intersect,
  env_or_active, domain_folders_or, ingest_domain_metadata, ingest_legacy_metadata, after_crawl,
  ingest_all_legacy_metadata,
}
use entsoe_pipeline.Crawler.Sessions.Stable.{HasId, crawl_folders-HasId}
use entsoe_pipeline.Crawler.Sessions.Frame.{Kept, crawl_folders-Kept}

crawl_read-any :
    (P : FmsTables → Type 0) (o : Read) (k : List Text → FmsTables → CrawlResult) (s : FmsTables)
    → P s
    → ((folders : List Text) → P (tables_of (k folders s)))
    → P (tables_of (crawl_read o k s))
crawl_read-any P (folders_read folders) k s h f = f folders
crawl_read-any P no_overview k s h f = h
crawl_read-any P no_environment k s h f = h
crawl_read-any P no_root k s h f = h

crawl_some-any :
    (P : FmsTables → Type 0) (k : List Text → FmsTables → CrawlResult) (folders : List Text)
    (s : FmsTables)
    → P s
    → ((fs : List Text) → P (tables_of (k fs s)))
    → P (tables_of (crawl_some k folders s))
crawl_some-any P k [] s h f = h
crawl_some-any P k (folder ∷ folders) s h f = f (folder ∷ folders)

with_legacy_rule-any :
    (P : FmsTables → Type 0) (o : Option LegacyRule) (r t : CrawlResult)
    → P (tables_of r)
    → P (tables_of t)
    → P (tables_of (with_legacy_rule o r t))
with_legacy_rule-any P none r t h k = h
with_legacy_rule-any P (some rule) r t h k = k

crawl_with_client-any :
    (w : World) (env domain root_dir : Text) (P : FmsTables → Type 0) (folders : List Text)
    (s : FmsTables)
    → P s
    → P (tables_of (crawl_folders (services_of w env root_dir) domain root_dir folders s))
    → P (tables_of (crawl_with_client w env domain root_dir folders s))
crawl_with_client-any w env domain root_dir P folders s h k =
    elim (Bool-cases (w.client_works env)) [ inl works ↦ rw works k | inr fails ↦ rw fails h ]

-- From tables whose keys are below the next one and differ by path: through the crawl of a domain,
-- completed or ended by an exception, a folder that has a row before keeps its key, every key stays below
-- the next one, and no two paths come to have one key.
pub ingest_domain_metadata-IsKeyed :
    (w : World) (domain : Text) (env : Option Text) (folders : Option (List Text)) (s : FmsTables)
    (p : Text) (i : ℕ)
    → IsKeyed s
    → id_at p s.folders ≡ some i
    → IsKeyed (tables_of (ingest_domain_metadata w domain env folders s))
      × (id_at p (tables_of (ingest_domain_metadata w domain env folders s)).folders ≡ some i)
unfolding ingest_domain_metadata
ingest_domain_metadata-IsKeyed w domain env folders s p i h k =
    let env_name = env_or_active env w.active_environment in
    let svc = services_of w env_name (text "TP_export") in
    let Both = λ (t : FmsTables). IsKeyed t × HasId p i t in
    crawl_read-any Both (domain_folders_or w folders domain env_name)
      (crawl_with_client w env_name domain (text "TP_export")) s (h, k)
      (λ fs.
        crawl_with_client-any w env_name domain (text "TP_export") Both fs s (h, k)
          (
            crawl_folders-IsKeyed svc domain (text "TP_export") fs s h,
            crawl_folders-HasId p i svc domain (text "TP_export") fs s k,
          ))

after_crawl-Kept :
    (p : Text) (s : FmsTables) (r : CrawlResult) (k : FmsTables → CrawlResult)
    → Kept p s (tables_of r)
    → ((t : FmsTables) → IsKeyed t → Kept p t (tables_of (k t)))
    → Kept p s (tables_of (after_crawl r k))
after_crawl-Kept p s (completed t) k h f = let (keyed, same) = f t h.0 in (keyed, same ∙ h.1)
after_crawl-Kept p s (raised t) k h f = h

legacy_path :
    (p : Text)
    → starts_with p (text "/TP_export/") ≡ true
    → (folder : Text) → (b'/' ∷ text "TP_Legacy_Publications" ++ (b'/' ∷ folder ++ text "/")) ≢ p
unfolding starts_with
legacy_path p h folder e =
    let impossible : false ≡ true =
      subst (λ x. starts_with x (text "/TP_export/") ≡ true) (sym e) h in
    absurd (cc impossible)

module _ (w : World) (p : Text) (active : starts_with p (text "/TP_export/") ≡ true) where
  ingest_legacy_metadata-Kept :
      (archive : Text) (env : Option Text) (folders : Option (List Text)) (s : FmsTables)
      → IsKeyed s
      → Kept p s (tables_of (ingest_legacy_metadata w archive env folders s))
  unfolding ingest_legacy_metadata
  ingest_legacy_metadata-Kept archive env folders s h =
      let env_name = env_or_active env w.active_environment in
      let root = text "TP_Legacy_Publications" in
      let crawl = crawl_with_client w env_name archive root in
      with_legacy_rule-any (Kept p s) (rule_for archive w.config.legacy_rules) (completed s) _
        (h, refl)
        (crawl_read-any (Kept p s) (get_legacy_archive_folders w.config w.overview archive env_name)
          (λ fs. crawl_some crawl (intersect folders fs)) s (h, refl)
          (λ fs.
            crawl_some-any (Kept p s) crawl (intersect folders fs) s (h, refl)
              (λ gs.
                crawl_with_client-any w env_name archive root (Kept p s) gs s (h, refl)
                  (crawl_folders-Kept (services_of w env_name root) archive root p
                    (legacy_path p active) gs s h))))

-- Through the crawl of the three legacy archives, completed or ended by an exception, the row of every
-- path below TP_export stays as it was, as long as the keys were unique before; and they stay so.
pub ingest_all_legacy_metadata-Kept :
    (w : World) (p : Text) (env : Option Text) (folders : Option (List Text)) (s : FmsTables)
    → starts_with p (text "/TP_export/") ≡ true
    → IsKeyed s
    → Kept p s (tables_of (ingest_all_legacy_metadata w env folders s))
unfolding ingest_all_legacy_metadata
ingest_all_legacy_metadata-Kept w p env folders s active h =
    let crawl = λ (archive : Text). ingest_legacy_metadata w archive env folders in
    after_crawl-Kept p s (crawl (text "R3_Archives") s)
      (λ t. after_crawl (crawl (text "R2_Archives") t) (crawl (text "R1_Archives_CSV_XML")))
      (ingest_legacy_metadata-Kept w p active (text "R3_Archives") env folders s h)
      (λ t k.
        after_crawl-Kept p t (crawl (text "R2_Archives") t) (crawl (text "R1_Archives_CSV_XML"))
          (ingest_legacy_metadata-Kept w p active (text "R2_Archives") env folders t k)
          (ingest_legacy_metadata-Kept w p active (text "R1_Archives_CSV_XML") env folders))
