-- ===== src/Lakehouse/Staging/Expected.antt =====
-- The attempts that a run of the staging job should log, field by field.
use entsoe_pipeline.Prelude.{
  none, some, List, [], ◌∷◌, ◌++◌, text, take, lower, map, sum_by, Text, if◌then◌else◌,
}
use entsoe_pipeline.Lakehouse.Attempts.{success, failed, IngestionAttemptLog, Log}
use entsoe_pipeline.Lakehouse.Gateway.{IngestibleFile, Groups}
use entsoe_pipeline.Lakehouse.Staging.{LoadOutcome, Platform, loaded, load_failed}

module _ (p : Platform) where
  -- The attempt of a file that was loaded into the table
  abbrev pub success_of : Text → Text → IngestibleFile → IngestionAttemptLog
  success_of c table_name f = record {
    s3_key = f.s3_key;
    xxhash = f.xxhash;
    iceberg_table = table_name;
    ingested_at = p.now c;
    status = success;
    error_message = none;
    run_id = p.run_id;
  }

  -- The attempt of a file whose contract ended with an exception of this message
  abbrev pub failure_of : Text → Text → IngestibleFile → IngestionAttemptLog
  failure_of c message f = record {
    s3_key = f.s3_key;
    xxhash = f.xxhash;
    iceberg_table = text "lakehouse." ++ (p.staging_namespace ++ (b'.' ∷ lower c));
    ingested_at = p.now c;
    status = failed;
    error_message = some (take 500 message);
    run_id = p.run_id;
  }

  abbrev pub attempts_of : Text → List IngestibleFile → LoadOutcome → Log
  attempts_of c files (loaded table_name) =
      if p.takes_success c
      then map (success_of c table_name) files
      else map (failure_of c (p.commit_error c)) files
  attempts_of c files (load_failed message) = map (failure_of c message) files

  -- The attempts that a run over the groups should log, one for each file, in order: a success when
  -- the load and its commit went through, else a failure.
  abbrev pub attempts : Groups → Log
  attempts [] = []
  attempts ((c, files) ∷ groups) =
      attempts_of c files
        (p.load c (map (λ f. f.s3_key) files) (sum_by (λ f. f.file_size_bytes) files))
      ++ attempts groups
