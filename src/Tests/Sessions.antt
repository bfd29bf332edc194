-- ===== src/Tests/Sessions.antt =====
-- The crawlers over a platform with one folder of two files.
use entsoe_pipeline.Prelude.{
  lookup, eq_iff, ◌≤◌, ◌≢◌, ℕ, ◌*◌, ◌/◌, ◌<◌, ◌≡◌, refl, true, false, Bool-cases, inl, inr, Option,
  none, some, List, [], ◌∷◌, take, drop, length, Text, text, ◌==◌, replace_doubled, lookup-nil,
  insert, ends_with, if◌then◌else◌, starts_with, contains, lower, upper, has_substring, arith,
}
use entsoe_pipeline.Prelude.Texts.Order.{text_le, sorted_set}
use entsoe_pipeline.Io.Checklist.{matching_env}
use entsoe_pipeline.Io.Remote.{ends_with_any}
use entsoe_pipeline.Api.Listing.Sorting.{RawItem}
use entsoe_pipeline.Api.Listing.Recursion.{recursive_path}
use entsoe_pipeline.Api.Listing.Recursion.Complete.{IsBounded}
use entsoe_pipeline.Delta.Crawl.{FmsFolder}
use entsoe_pipeline.Classifier.{LegacyRule}
use entsoe_pipeline.JobConfig.{Overview}
use entsoe_pipeline.Crawler.{FmsTables, completed, raised}
use entsoe_pipeline.Crawler.Keys.{IsKeyed, id_at, tables_of}
use entsoe_pipeline.Crawler.Folder.{crawl_metadata_folder}
use entsoe_pipeline.Crawler.Sessions.{World, ingest_domain_metadata, ingest_all_legacy_metadata}
use entsoe_pipeline.Crawler.Sessions.Frame.{Kept}
use entsoe_pipeline.Prelude.Texts.Spaces.{strip_space}
use entsoe_pipeline.Refresh.{Ages}
use entsoe_pipeline.Refresh.Entries.{named, ingest_metadata, refresh_environment_metadata}
use entsoe_pipeline.Refresh.Agreement.{AgreeOn, ingest_metadata-AgreeOn}
use entsoe_pipeline.Crawler.Sessions.Legacy.{
  ingest_domain_metadata-IsKeyed, ingest_all_legacy_metadata-Kept,
}

abbrev file_named : Text → Text → RawItem
file_named name id = record {
  name = name;
  is_folder = false;
  size = 1;
  original_size = 2;
  last_updated = text "t";
  file_id = id;
}

abbrev content : Text → List RawItem
content path =
    if path == text "/TP_Legacy_Publications/Old/"
    then file_named (text "b.csv") (text "2") ∷ file_named (text "a.csv") (text "1") ∷ []
    else []

abbrev page : Text → ℕ → ℕ → Option (List RawItem)
page path i n = some (take n (drop (i * n) (content path)))

abbrev below : Text → List RawItem
below sub = content (recursive_path (text "TP_Legacy_Publications") (text "Old") sub)

content_short : (path : Text) → length (content path) / 1000 < 1
content_short path = elim (Bool-cases (path == text "/TP_Legacy_Publications/Old/")) [
  | inl e ↦ rw e (omega arith)
  | inr e ↦ rw e (omega arith)
]

below-IsBounded : IsBounded below 1 []
unfolding recursive_path ◌==◌ replace_doubled
below-IsBounded = ((λ e. ground (arith, e)), ((λ e. ground (arith, e)), tt))

not_a_file : ends_with_any (text "Old") (text ".csv" ∷ []) ≡ false
unfolding ends_with_any ends_with
not_a_file = refl

abbrev rule : LegacyRule
rule = record {
  archive = text "R3_Archives";
  release_name = [];
  decommission_status = [];
  description = [];
  patterns = text "old" ∷ [];
}

abbrev overview : Overview
overview =
    (
      text "Prod",
      record { name = text "TP_Legacy_Publications"; domains = []; folders = text "Old" ∷ [] } ∷ [],
    )
    ∷ []

abbrev world : World
world = record {
  config = record {
    domain_order = text "Load" ∷ [];
    fallback_domain = [];
    domains = [];
    legacy_rules = rule ∷ [];
  };
  overview = some overview;
  active_environment = text "PROD";
  client_works = λ env. true;
  page = λ env. page;
  pages = 1;
  depth = 1;
  extensions = text ".csv" ∷ [];
  xxh3_128 = λ s. s;
  database_works = λ folder. true;
  now = λ folder. 50;
}

abbrev no_tables : FmsTables
no_tables = record { folders = []; files = []; next_id = 1 }

no_tables-IsKeyed : IsKeyed no_tables
no_tables-IsKeyed = record {
  below = λ p i e. ground (arith, e, lookup-nil {V = FmsFolder} p);
  distinct = λ p q i e k. ground (arith, e, lookup-nil {V = FmsFolder} p);
}

abbrev load_path : Text
load_path = text "/TP_export/Load_R3/"

abbrev one_folder : FmsTables
one_folder = record {
  folders =
      (
        load_path,
        record {
          id = 1;
          domain = text "Load";
          item_count = 0;
          original_bytes = 0;
          compressed_bytes = 0;
          crawled_at = none;
        },
      )
      ∷ [];
  files = [];
  next_id = 2;
}

one_folder-IsKeyed : IsKeyed one_folder
unfolding lookup
one_folder-IsKeyed = record {
  below = λ p i e. ground (arith, e);
  distinct = λ p q i e k. ground (arith, e, k, eq_iff load_path p, eq_iff load_path q);
}

load_id : id_at load_path one_folder.folders ≡ some 1
unfolding lookup ◌==◌
load_id = refl

ingest_domain_metadata-IsKeyed_example :
    IsKeyed (
      tables_of
        (ingest_domain_metadata world (text "Load") none (some (text "Load_R3" ∷ [])) one_folder))
    × (id_at load_path
          (tables_of (
            ingest_domain_metadata world
              (text "Load")
              none
              (some (text "Load_R3" ∷ []))
              one_folder)).folders
        ≡ some 1)
ingest_domain_metadata-IsKeyed_example =
    ingest_domain_metadata-IsKeyed world (text "Load") none (some (text "Load_R3" ∷ [])) one_folder
      load_path 1 one_folder-IsKeyed load_id

active_path : starts_with (text "/TP_export/Load_R3/") (text "/TP_export/") ≡ true
unfolding starts_with
active_path = refl

ingest_all_legacy_metadata-Kept_example :
    Kept
      (text "/TP_export/Load_R3/")
      no_tables
      (tables_of (ingest_all_legacy_metadata world none none no_tables))
ingest_all_legacy_metadata-Kept_example =
    ingest_all_legacy_metadata-Kept world (text "/TP_export/Load_R3/") none none no_tables
      active_path no_tables-IsKeyed

ingest_all_legacy_metadata_runs :
    length (tables_of (ingest_all_legacy_metadata world none none no_tables)).files ≡ 2
unfolding ingest_all_legacy_metadata matching_env upper ◌==◌ has_substring starts_with lower
    contains sorted_set entsoe_pipeline.FolderMap.Parser.get_legacy_archive_folders
    crawl_metadata_folder replace_doubled text_le insert
ingest_all_legacy_metadata_runs = refl

abbrev ages : Ages
ages = record { now = λ name. 9; max_age_days = 3 }

load_once : length (named world ages (strip_space (text " load")) world.config.domain_order) ≤ 1
unfolding strip_space lower ◌==◌
load_once = omega arith

load_not_nil : text " load" ≢ []
load_not_nil e = cc

ingest_metadata-AgreeOn_example :
    AgreeOn world ages (text " load") (text "prod") false true no_tables
ingest_metadata-AgreeOn_example =
    ingest_metadata-AgreeOn world ages (text " load") (text "prod") false true no_tables
      load_not_nil load_once

-- A domain that the classifier does not have
unknown_domain_raises :
    (ingest_metadata world ages (text "x") (text "prod") false true no_tables ≡ raised no_tables)
    × (refresh_environment_metadata world ages (text "PROD") false true (some (text "x")) no_tables
        ≡ completed no_tables)
unfolding ingest_metadata refresh_environment_metadata strip_space lower ◌==◌
unknown_domain_raises = (refl, refl)
