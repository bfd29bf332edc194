-- ===== src/Tests/Loads.antt =====
-- lakehouse/ and jobs/staging/: three registered files, of which one was loaded before, one loads and
-- one fails.
use entsoe_pipeline.Prelude.{
  ◌+◌, ◌<◌, ◌≡◌, refl, if◌then◌else◌, true, false, contains, not, ◌||◌, none, some, [], ◌∷◌, ◌++◌,
  length, Text, text, Dict, ◌==◌, split, strip, lookup, insert, arith,
}
use entsoe_pipeline.Io.Registry.{LandingFile}
use entsoe_pipeline.Classifier.{ClassifierItem, ClassifierConfig}
use entsoe_pipeline.Lakehouse.Attempts.{
  IngestionAttemptLog, Log, success, PendingRow, is_failed, latest, is_pending,
  fetch_incremental_files_from_db,
}
use entsoe_pipeline.Lakehouse.Gateway.{IngestibleFile, admit_row, get_incremental_files_to_ingest}
use entsoe_pipeline.Lakehouse.Gateway.Admission.{IsAdmitted, admit_row-IsAdmitted}
use entsoe_pipeline.Lakehouse.Gateway.Groups.{
  total, admitted, group_of, of_contract, get_incremental_files_to_ingest_lem,
}
use entsoe_pipeline.Lakehouse.Staging.{
  loaded, load_failed, Platform, JobState, JobResult, finished, exited, main, success_log,
  failed_log,
}
use entsoe_pipeline.Lakehouse.Staging.Expected.{attempts}
use entsoe_pipeline.Lakehouse.Staging.Outcome.{main_lem, main-is_pending}
use entsoe_pipeline.Lakehouse.Staging.Ends.{Finishes, main-Finishes}
use entsoe_pipeline.Lakehouse.Contracts.{string_type}
use entsoe_pipeline.Lakehouse.Tables.{Catalog}
use entsoe_pipeline.Lakehouse.Loading.{Lakehouse, ingest_to_lakehouse}
use entsoe_pipeline.Lakehouse.Loading.Traces.{Accounts, ingest_to_lakehouse-Accounts}

abbrev item : ClassifierItem
item = record { name = text "load"; fms_name = text "Load_R3" }

abbrev other_item : ClassifierItem
other_item = record { name = text "gen"; fms_name = text "Gen_R3" }

abbrev classifier : ClassifierConfig
classifier = record {
  domain_order = text "Load" ∷ [];
  fallback_domain = text "OtherMarketInformation";
  domains = (text "Load", (text "load", item) ∷ (text "gen", other_item) ∷ []) ∷ [];
  legacy_rules = [];
}

abbrev landed : Text → LandingFile
landed hash = record {
  file_name = text "f";
  file_id = text "1";
  file_size_bytes = 5;
  last_updated_timestamp = 1;
  xxhash = hash;
  downloaded_at = 1;
  run_id = text "r";
}

abbrev key_old : Text
key_old = text "prod/TP_export/Load/Load_R3/1.csv"

abbrev key_new : Text
key_new = text "prod/TP_export/Load/Load_R3/2.csv"

abbrev key_bad : Text
key_bad = text "prod/TP_export/Load/Gen_R3/3.csv"

abbrev registry : Dict LandingFile
registry =
    (key_old, landed (text "h1"))
    ∷ (key_new, landed (text "h2"))
    ∷ (key_bad, landed (text "h3"))
    ∷ []

abbrev old_attempt : IngestionAttemptLog
old_attempt = record {
  s3_key = key_old;
  xxhash = text "h1";
  iceberg_table = text "t";
  ingested_at = 2;
  status = success;
  error_message = none;
  run_id = text "r0";
}

abbrev log : Log
log = old_attempt ∷ []

abbrev platform : Platform
platform = record {
  preflight_passes = true;
  query_works = true;
  session_starts = true;
  namespaces_load = λ c. true;
  load = λ c keys size.
      if c == text "Load_R3"
      then loaded (text "lakehouse.load")
      else load_failed (text "no schema");
  takes_success = λ c. true;
  takes_failed = λ c. true;
  commit_error = λ c. text "commit";
  now = λ c. 9;
  staging_namespace = text "staging";
  run_id = text "r1";
}

abbrev state_of : JobResult → JobState
state_of (finished s) = s
state_of (exited s) = s

abbrev after : JobState
after = state_of (main platform classifier registry log)

run_finishes : main platform classifier registry log ≡ finished after
unfolding main ◌==◌ split strip lookup insert
run_finishes = refl

run_counts : (after.total_processed ≡ 1) × (after.total_failed ≡ 1) × (length after.log ≡ 3)
unfolding main ◌==◌ split strip lookup insert
run_counts = (refl, refl, refl)

main_lem_example :
    (after.log ≡ log ++ attempts platform (get_incremental_files_to_ingest classifier registry log))
    × (after.total_processed + after.total_failed
        ≡ total (get_incremental_files_to_ingest classifier registry log))
main_lem_example = main_lem platform classifier registry log after run_finishes

abbrev new_attempt : IngestionAttemptLog
new_attempt = record {
  s3_key = key_new;
  xxhash = text "h2";
  iceberg_table = text "lakehouse.load";
  ingested_at = 9;
  status = success;
  error_message = none;
  run_id = text "r1";
}

new_attempted :
    latest key_new (attempts platform (get_incremental_files_to_ingest classifier registry log))
    ≡ some new_attempt
unfolding get_incremental_files_to_ingest ◌==◌ split strip lookup insert success_log failed_log
new_attempted = refl

new_is_newer :
    (o : IngestionAttemptLog)
    → latest key_new log ≡ some o
    → o.ingested_at < new_attempt.ingested_at
unfolding latest
new_is_newer o e = ground (arith, e)

main-is_pending_example :
    is_pending after.log key_new (text "h2") ≡ (is_failed success || not (text "h2" == text "h2"))
main-is_pending_example =
    main-is_pending platform classifier registry log after key_new (text "h2") new_attempt
      run_finishes new_attempted new_is_newer

main-Finishes_example : Finishes platform (main platform classifier registry log)
main-Finishes_example = main-Finishes platform (λ c. refl) classifier registry log refl refl refl

abbrev row : PendingRow
row = record { s3_key = key_new; xxhash = text "h2"; file_size_bytes = 5 }

abbrev new_file : IngestibleFile
new_file = record {
  s3_key = key_new;
  xxhash = text "h2";
  file_size_bytes = 5;
  logical_domain = text "Load";
  fms_name = text "Load_R3";
}

row_admitted : admit_row classifier row ≡ some new_file
unfolding admit_row ◌==◌ split strip lookup
row_admitted = refl

admit_row-IsAdmitted_example : IsAdmitted classifier row new_file
admit_row-IsAdmitted_example = admit_row-IsAdmitted classifier row new_file row_admitted

get_incremental_files_to_ingest_lem_example :
    (group_of (text "Load_R3") (get_incremental_files_to_ingest classifier registry log)
      ≡ of_contract
          (text "Load_R3")
          (admitted classifier (fetch_incremental_files_from_db registry log)))
    × (total (get_incremental_files_to_ingest classifier registry log)
        ≡ length (admitted classifier (fetch_incremental_files_from_db registry log)))
get_incremental_files_to_ingest_lem_example =
    get_incremental_files_to_ingest_lem classifier registry log (text "Load_R3")

-- Contracts without columns, which are read by inference and appended
abbrev lakehouse : Lakehouse
lakehouse = record {
  spark = record {
    namespace = text "staging";
    creates = λ table_name. true;
    writes = λ table_name. true;
    view_name = text "src_merge_temp_0a1b2c3d";
  };
  codec = record {
    purge_raw_after_transform = false;
    write_properties = record {
      compression_codec = text "zstd";
      compression_level = 3;
      target_parquet_size_bytes = 100;
    };
    publication_overrides = [];
  };
  schemas = (text "Load_R3", record { name = text "Load"; zendesk_url = none; columns = [] }) ∷ [];
  landing_bucket = text "landing";
  header_of = λ paths. none;
  infer = λ paths.
      some (record { name = text "Load[MW]"; data_type = string_type; date_format = none } ∷ []);
  message_of = λ domain. text "failed";
}

abbrev empty_catalog : Catalog
empty_catalog = record { tables = []; temp_views = []; writes = [] }

no_views : contains [] lakehouse.spark.view_name ≡ false
unfolding contains
no_views = refl

ingest_to_lakehouse-Accounts_example :
    Accounts lakehouse platform
      (get_incremental_files_to_ingest classifier registry [])
      []
      empty_catalog
      (ingest_to_lakehouse lakehouse platform classifier registry [] empty_catalog)
ingest_to_lakehouse-Accounts_example =
    ingest_to_lakehouse-Accounts lakehouse platform classifier registry [] empty_catalog no_views
