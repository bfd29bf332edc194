-- ===== src/Lakehouse/Staging.antt =====
-- jobs/staging/ingest_landing_csv_to_lakehouse.py. Reading the files with Spark and merging them into
-- the table is `load`: the table's name, or the message of the exception. What the preflight, the query
-- of the pending files, the start of Spark and the reading of the configuration come to is asked of the
-- platform; each of them ends the job with an exit when it raises.
pub mod Expected
pub mod Outcome
pub mod Ends
use entsoe_pipeline.Prelude.{
  ℕ, ◌+◌, ◌*◌, Bool, ◌&&◌, if◌then◌else◌, Option, none, some, List, [], ◌∷◌, ◌++◌, length, map,
  sum_by, Text, text, lower, take, Dict,
}
use entsoe_pipeline.Io.Registry.{LandingFile}
use entsoe_pipeline.Classifier.{ClassifierConfig}
use entsoe_pipeline.Lakehouse.Attempts.{
  IngestionAttemptLog, Log, success, failed, commit_ingestion_attempts,
}
use entsoe_pipeline.Lakehouse.Gateway.{IngestibleFile, Groups, get_incremental_files_to_ingest}

pub data LoadOutcome : Type 0 where
  loaded : Text → LoadOutcome
  load_failed : Text → LoadOutcome

-- What the job takes from outside. `takes_success` and `takes_failed` tell whether the database takes
-- the batch of a contract after the load and after a failure, and `commit_error` is the message of
-- the exception of the former.
pub record Platform : Type 0 where
  pub preflight_passes : Bool
  pub query_works : Bool
  -- whether Spark starts and the active environment is known
  pub session_starts : Bool
  -- whether the namespaces can be read in the `except` clause of this contract
  pub namespaces_load : Text → Bool
  pub load : Text → List Text → ℕ → LoadOutcome
  pub takes_success : Text → Bool
  pub takes_failed : Text → Bool
  pub commit_error : Text → Text
  -- the clock when the files of a contract are begun
  pub now : Text → ℕ
  pub staging_namespace : Text
  pub run_id : Text

pub record JobState : Type 0 where
  pub log : Log
  pub total_processed : ℕ
  pub total_failed : ℕ

-- `exited` is `sys.exit(1)`.
pub data JobResult : Type 0 where
  finished exited : JobState → JobResult

module _ (p : Platform) where
  unfoldable pub success_log : Text → Text → IngestibleFile → IngestionAttemptLog
  success_log domain table_name f = record {
    s3_key = f.s3_key;
    xxhash = f.xxhash;
    iceberg_table = table_name;
    ingested_at = p.now domain;
    status = success;
    error_message = none;
    run_id = p.run_id;
  }

  unfoldable pub failed_log : Text → Text → IngestibleFile → IngestionAttemptLog
  failed_log domain message f = record {
    s3_key = f.s3_key;
    xxhash = f.xxhash;
    iceberg_table = text "lakehouse." ++ (p.staging_namespace ++ (b'.' ∷ lower domain));
    ingested_at = p.now domain;
    status = failed;
    error_message = some (take 500 message);
    run_id = p.run_id;
  }

  -- The `except` clause of a contract. The namespaces are read for each file, so that for a batch that
  -- is not empty an exception of theirs leaves nothing committed, as one of the database does.
  unfoldable pub fail_group : Text → List IngestibleFile → Text → JobState → JobResult
  unfolding failed_log commit_ingestion_attempts
  fail_group domain files message s =
      let counted : JobState = record s { total_failed = s.total_failed + length files } in
      elim (commit_ingestion_attempts (λ _. p.namespaces_load domain && p.takes_failed domain)
        (map (failed_log domain message) files) s.log) [
          | none ↦ exited counted
          | some log ↦ finished (record counted { log = log })
        ]

  -- The end of the `try` block, after the load.
  unfoldable pub commit_group : Text → List IngestibleFile → Text → JobState → JobResult
  unfolding fail_group success_log
  commit_group domain files table_name s =
      elim (commit_ingestion_attempts (λ _. p.takes_success domain)
        (map (success_log domain table_name) files) s.log) [
          | none ↦ fail_group domain files (p.commit_error domain) s
          | some log ↦
              finished (record s { log = log; total_processed = s.total_processed + length files })
        ]

  unfoldable pub load_group : Text → List IngestibleFile → LoadOutcome → JobState → JobResult
  unfolding commit_group
  load_group domain files (loaded table_name) s = commit_group domain files table_name s
  load_group domain files (load_failed message) s = fail_group domain files message s

  unfoldable pub ingest_group : Text → List IngestibleFile → JobState → JobResult
  unfolding load_group
  ingest_group domain files =
      load_group domain files
        (p.load domain (map (λ f. f.s3_key) files) (sum_by (λ f. f.file_size_bytes) files))

  abbrev pub unless_exited : JobResult → (JobState → JobResult) → JobResult
  unless_exited (finished s) k = k s
  unless_exited (exited s) k = exited s

  unfoldable pub ingest_groups : Groups → JobState → JobResult
  unfolding ingest_group
  ingest_groups [] s = finished s
  ingest_groups ((domain, files) ∷ groups) s =
      unless_exited (ingest_group domain files s) (ingest_groups groups)

  abbrev pub begun : Log → JobState
  begun log = record { log = log; total_processed = 0; total_failed = 0 }

  -- The job with what runs the groups: it ends early where no file is pending, before Spark starts.
  abbrev pub with_session : Groups → (Groups → JobState → JobResult) → JobState → JobResult
  with_session [] k s = finished s
  with_session (group ∷ groups) k s =
      let run = k (group ∷ groups) s in if p.session_starts then run else exited s

  abbrev pub after_preflight : JobResult → JobState → JobResult
  after_preflight run s =
      if p.preflight_passes then if p.query_works then run else exited s else exited s

  unfoldable pub main : ClassifierConfig → Dict LandingFile → Log → JobResult
  unfolding ingest_groups get_incremental_files_to_ingest
  main classifier registry log =
      after_preflight
        (with_session (get_incremental_files_to_ingest classifier registry log) ingest_groups
          (begun log))
        (begun log)
