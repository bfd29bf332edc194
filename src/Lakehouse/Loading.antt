-- ===== src/Lakehouse/Loading.antt =====
-- jobs/staging/ingest_landing_csv_to_lakehouse.py, over the reader of the landing files and the
-- tables: the same job as Lakehouse/Staging with its loads executed, so that the catalog is threaded
-- through the groups. A group's load is given the catalog that the groups before it have left.
pub mod Traced
pub mod Traces
use entsoe_pipeline.Prelude.{
  ℕ, if◌then◌else◌, Option, none, some, List, [], ◌∷◌, map, sum_by, Text, Dict,
}
use entsoe_pipeline.Io.Registry.{LandingFile}
use entsoe_pipeline.Classifier.{ClassifierConfig}
use entsoe_pipeline.Lakehouse.Attempts.{Log}
use entsoe_pipeline.Lakehouse.Gateway.{IngestibleFile, Groups, get_incremental_files_to_ingest}
use entsoe_pipeline.Lakehouse.Contracts.{FmsPublicationSchema}
use entsoe_pipeline.Lakehouse.Reader.{Column, read_landing_csv_dataset}
use entsoe_pipeline.Lakehouse.Tables.{
  Spark, LakehouseParquetCodecConfig, Catalog, SparkRun, wrote, raised_error, table_name_of,
  add_csv_to_iceberg_table,
}
use entsoe_pipeline.Lakehouse.Staging.{
  Platform, JobState, JobResult, finished, exited, LoadOutcome, loaded, load_failed, load_group,
}

pub record Lakehouse : Type 0 where
  pub spark : Spark
  pub codec : LakehouseParquetCodecConfig
  pub schemas : Dict FmsPublicationSchema
  pub landing_bucket : Text
  -- what Spark reads: the header of the files, the columns it infers
  pub header_of : List Text → Option (List Text)
  pub infer : List Text → Option (List Column)
  -- the message of an exception in the load of a contract
  pub message_of : Text → Text

module _ (lakehouse : Lakehouse) where
  abbrev pub outcome_of : Text → SparkRun → LoadOutcome × Catalog
  outcome_of domain (wrote c) = (loaded (table_name_of lakehouse.spark lakehouse.codec domain), c)
  outcome_of domain (raised_error c) = (load_failed (lakehouse.message_of domain), c)

  abbrev pub add_frame : Text → ℕ → Option (List Column) → Catalog → LoadOutcome × Catalog
  add_frame domain size none c = (load_failed (lakehouse.message_of domain), c)
  add_frame domain size (some df) c =
      outcome_of domain (
        add_csv_to_iceberg_table lakehouse.spark lakehouse.codec lakehouse.schemas df domain size c)

  -- Steps A and B of a contract
  unfoldable pub load_files : Text → List Text → ℕ → Catalog → LoadOutcome × Catalog
  unfolding read_landing_csv_dataset add_csv_to_iceberg_table table_name_of
  load_files domain s3_keys size = add_frame domain size (
      read_landing_csv_dataset lakehouse.schemas lakehouse.landing_bucket lakehouse.header_of
        lakehouse.infer s3_keys domain)

  module _ (p : Platform) where
    abbrev pub load_into :
        Text → List IngestibleFile → LoadOutcome × Catalog → JobState → JobResult × Catalog
    load_into domain files (outcome, c) s = (load_group p domain files outcome s, c)

    unfoldable pub ingest_into :
        Text → List IngestibleFile → JobState → Catalog → JobResult × Catalog
    unfolding load_files load_group
    ingest_into domain files s c =
        load_into domain files
          (load_files domain (map (λ f. f.s3_key) files) (sum_by (λ f. f.file_size_bytes) files) c)
          s

    abbrev pub unless_ended :
        JobResult × Catalog → (JobState → Catalog → JobResult × Catalog) → JobResult × Catalog
    unless_ended (finished s, c) k = k s c
    unless_ended (exited s, c) k = (exited s, c)

    unfoldable pub ingest_all : Groups → JobState → Catalog → JobResult × Catalog
    unfolding ingest_into
    ingest_all [] s c = (finished s, c)
    ingest_all ((domain, files) ∷ groups) s c =
        unless_ended (ingest_into domain files s c) (ingest_all groups)

    abbrev pub begun_with : Groups → JobState → Catalog → JobResult × Catalog
    begun_with [] s c = (finished s, c)
    begun_with (group ∷ groups) s c =
        let run = ingest_all (group ∷ groups) s c in if p.session_starts then run else (exited s, c)

    abbrev pub after_probes : JobResult × Catalog → JobState → Catalog → JobResult × Catalog
    after_probes run s c =
        if p.preflight_passes then if p.query_works then run else (exited s, c) else (exited s, c)

    unfoldable pub ingest_to_lakehouse :
        ClassifierConfig → Dict LandingFile → Log → Catalog → JobResult × Catalog
    unfolding ingest_all get_incremental_files_to_ingest
    ingest_to_lakehouse classifier registry log c =
        let s : JobState = record { log = log; total_processed = 0; total_failed = 0 } in
        after_probes (begun_with (get_incremental_files_to_ingest classifier registry log) s c) s c
