-- ===== src/Tests/Landings.antt =====
-- The landing bucket's schema of two folders of one crawl, and a file that is synchronised under it.
use entsoe_pipeline.Prelude.{
  Option, Text, ◌≡◌, ◌≢◌, ◌≤◌, refl, none, some, List, [], ◌∷◌, All, text, ◌==◌, Dict, lookup,
  split, strip, lower, insert, arith,
}
use entsoe_pipeline.Classifier.{ClassifierConfig}
use entsoe_pipeline.Io.Checklist.{Selection, enabled}
use entsoe_pipeline.Io.Remote.{FileMeta}
use entsoe_pipeline.Io.Schema.{TargetMapping, resolve_target_mappings}
use entsoe_pipeline.Lakehouse.Attempts.{PendingRow}
use entsoe_pipeline.Crawler.{compile_folder_metadata}
use entsoe_pipeline.Landing.{
  FolderRecord, folders_to_insert, SchemaRow, build_landing_bucket_schema,
  get_landing_bucket_schema,
}
use entsoe_pipeline.Landing.Schema.{build_landing_bucket_schema_lem, last_row, copies}
use entsoe_pipeline.Landing.Admitted.{IsCrawled}
use entsoe_pipeline.Landing.Resolved.{IsFrom, build_landing_bucket_schema-resolves}

abbrev load_record : FolderRecord
load_record = record {
  environment = text "PROD";
  domain = text "Load";
  folder_path = text "/TP_export/Load_R3/";
}

abbrev old_record : FolderRecord
old_record = record {
  environment = text "PROD";
  domain = text "R2_Archives";
  folder_path = text "/TP_Legacy_Publications/Old/";
}

abbrev records : List FolderRecord
records = load_record ∷ old_record ∷ []

load_record-IsCrawled : IsCrawled load_record
unfolding compile_folder_metadata
load_record-IsCrawled = record {
  root_dir = text "TP_export";
  folder_name = text "Load_R3";
  files = [];
  crawled = refl;
  environment_name = (λ e. cc, ground arith);
  root_name = (λ e. cc, ground arith);
  domain_name = (λ e. cc, ground arith);
  name = (λ e. cc, ground arith);
}

old_record-IsCrawled : IsCrawled old_record
unfolding compile_folder_metadata
old_record-IsCrawled = record {
  root_dir = text "TP_Legacy_Publications";
  folder_name = text "Old";
  files = [];
  crawled = refl;
  environment_name = (λ e. cc, ground arith);
  root_name = (λ e. cc, ground arith);
  domain_name = (λ e. cc, ground arith);
  name = (λ e. cc, ground arith);
}

records-IsCrawled : All IsCrawled records
records-IsCrawled = (load_record-IsCrawled, (old_record-IsCrawled, tt))

abbrev table : Dict SchemaRow
table = build_landing_bucket_schema records []

table_paths :
    get_landing_bucket_schema table
    ≡ text "prod/TP_export/Load/Load_R3" ∷ text "prod/TP_Legacy_Publications/R2_Archives/Old" ∷ []
unfolding get_landing_bucket_schema build_landing_bucket_schema split strip lower insert ◌==◌
table_paths = refl

records_not_nil : records ≢ []
records_not_nil e = cc

folders_not_nil : folders_to_insert records ≢ []
unfolding folders_to_insert split strip
folders_not_nil e = cc

build_landing_bucket_schema_lem_example :
    (lookup (text "prod/TP_export/Load/Load_R3") table
      ≡ last_row (text "prod/TP_export/Load/Load_R3") none (folders_to_insert records))
    × (copies (text "prod/TP_export/Load/Load_R3") (get_landing_bucket_schema table) ≤ 1)
build_landing_bucket_schema_lem_example =
    build_landing_bucket_schema_lem records [] (text "prod/TP_export/Load/Load_R3") folders_not_nil

abbrev active : Dict Selection
active = (text "Old", enabled) ∷ []

build_landing_bucket_schema-resolves_example :
    (ms : List TargetMapping) × (resolve_target_mappings
        (text "prod")
        active
        (get_landing_bucket_schema table)
      ≡ some ms)
    × All (λ m. IsFrom records m.schema_path) ms
build_landing_bucket_schema-resolves_example =
    build_landing_bucket_schema-resolves records [] (text "prod") active records_not_nil
      records-IsCrawled

abbrev old_mapping : TargetMapping
old_mapping = record {
  schema_path = text "prod/TP_Legacy_Publications/R2_Archives/Old";
  active_folder = text "Old";
  top_level_folder = text "TP_Legacy_Publications";
  remote_folder_path = text "R2_Archives/Old";
  val = enabled;
}

abbrev csv : FileMeta
csv = record {
  name = text "a.csv";
  original_size = 10;
  last_updated = text "2026-01-01";
  file_id = text "1";
  remote_folder = text "R2_Archives/Old";
}

abbrev pending : PendingRow
pending = record {
  s3_key = text "prod/TP_Legacy_Publications/R2_Archives/Old/a.csv";
  xxhash = text "h";
  file_size_bytes = 10;
}

abbrev no_domains : ClassifierConfig
no_domains = record { domain_order = []; fallback_domain = []; domains = []; legacy_rules = [] }

abbrev listing : Text → Text → Option (List FileMeta)
listing folder root = some (csv ∷ [])
