-- ===== src/FolderMap/Drift/Agreement.antt =====
-- The drift that the collection of the overview writes, and what the two scripts write when they read
-- that overview.
use mathlib.Core.Path.{subst}
use entsoe_pipeline.Prelude.{
  ◌≡◌, true, not, ◌||◌, List, [], ◌∷◌, filter, Text, text, contains, arith,
}
use entsoe_pipeline.Classifier.{ClassifierConfig}
use entsoe_pipeline.JobConfig.{Overview}
use entsoe_pipeline.Api.Listing.{Listed}
use entsoe_pipeline.FolderMap.{
  EnvironmentMetadata, Fetched, fetched, key_error, listing_error, fetch_environment_metadata,
}
use entsoe_pipeline.FolderMap.Drift.{
  Collected, Ingested, collected, with_fetched, collect, roots_of, matched_by,
  generate_undocumented_folders_report, generate_unseen_publications_report,
  ingest_overview_metadata,
}
use entsoe_pipeline.FolderMap.Drift.Reports.{begins, visited, collect_lem, matched_by-begins}

with_fetched-collected :
    (o : Fetched) (k : EnvironmentMetadata → Ingested) (c : Collected)
    → with_fetched o k ≡ collected c
    → (m : EnvironmentMetadata) × (k m ≡ collected c)
with_fetched-collected (fetched m) k c h = (m, h)
with_fetched-collected key_error k c h = absurd (cc h)
with_fetched-collected listing_error k c h = absurd (cc h)

ingest-collect :
    (config : ClassifierConfig) (ls : Text → Text → Listed Text) (c : Collected)
    → ingest_overview_metadata config ls ≡ collected c
    → (overview : Overview) × (collect config overview ≡ c)
unfolding ingest_overview_metadata
ingest-collect config ls c h =
    let (iop, k) =
      with_fetched-collected (fetch_environment_metadata config (ls (text "IOP")) (text "IOP")) _ c
        h in
    let (prod, e) =
      with_fetched-collected (fetch_environment_metadata config (ls (text "PROD")) (text "PROD")) _
        c k in
    ((text "IOP", roots_of iop) ∷ (text "Prod", roots_of prod) ∷ [], cc e)

named_or_begins :
    (config : ClassifierConfig) (n : Text) (folders : List Text)
    → (not (contains (matched_by config folders) n) || begins n folders) ≡ true
named_or_begins config n folders = ground (arith, matched_by-begins config n folders)

-- The two reports of the collection against those of the scripts
abbrev pub Agrees : ClassifierConfig → Text → Collected → Type 0
Agrees config n c =
    (c.undocumented_folders ≡ generate_undocumented_folders_report config c.overview)
    × (generate_unseen_publications_report config c.overview
        ≡ filter (λ p. not (contains (matched_by config (visited c.overview)) p.fms_name)) c.unseen)
    × ((not (contains (matched_by config (visited c.overview)) n) || begins n (visited c.overview))
        ≡ true)

-- When the collection succeeds, the undocumented folders that it reports are those of the script's
-- report on the same overview; the script's unseen publications are those of the collection's whose
-- name the script has not matched to a folder in any domain; and the script matches a name only
-- where the name begins that of an active folder, whatever the case.
pub ingest_overview_metadata-Agrees :
    (config : ClassifierConfig) (ls : Text → Text → Listed Text) (c : Collected) (n : Text)
    → ingest_overview_metadata config ls ≡ collected c
    → Agrees config n c
ingest_overview_metadata-Agrees config ls c n h =
    let (overview, e) = ingest-collect config ls c h in
    let (same, part) = collect_lem config overview in
    subst (Agrees config n) e (same, part, named_or_begins config n (visited overview))
