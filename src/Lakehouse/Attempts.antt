-- ===== src/Lakehouse/Attempts.antt =====
-- src/entsoe_pipeline/lakehouse/ingestion_status_db_registry.py, db/core/write_ingestion_status.py and
-- db/core/query_for_landing_files_pending_integration.py: the log of attempts, which only grows, and
-- the query for files that are still to be loaded.
pub mod Latest
use entsoe_pipeline.Prelude.{
  ℕ, Bool, true, false, not, ◌||◌, Option, none, some, List, [], ◌∷◌, ◌++◌, map, filter, Text, ◌==◌,
  Dict, ltb, if◌then◌else◌,
}
use entsoe_pipeline.Io.Registry.{LandingFile}

pub data Status : Type 0 where
  success failed : Status

pub record IngestionAttemptLog : Type 0 where
  pub s3_key : Text
  pub xxhash : Text
  pub iceberg_table : Text
  pub ingested_at : ℕ
  pub status : Status
  pub error_message : Option Text
  pub run_id : Text

abbrev pub Log : Type 0
Log = List IngestionAttemptLog

-- The row that `ORDER BY ingested_at DESC` puts first. SQL leaves ties open; here the older row wins.
abbrev pub later : IngestionAttemptLog → Option IngestionAttemptLog → IngestionAttemptLog
later a none = a
later a (some b) = if ltb a.ingested_at b.ingested_at then b else a

-- `latest_ingestion` at `rn = 1`, for one key
unfoldable pub latest : Text → Log → Option IngestionAttemptLog
latest k [] = none
latest k (a ∷ log) = let rest = latest k log in if a.s3_key == k then some (later a rest) else rest

abbrev pub is_failed : Status → Bool
is_failed success = false
is_failed failed = true

-- The `WHERE` clause over the left join.
unfoldable pub is_pending : Log → Text → Text → Bool
is_pending log s3_key xxhash = elim (latest s3_key log) [
  | none ↦ true
  | some li ↦ is_failed li.status || not (xxhash == li.xxhash)
]

pub record PendingRow : Type 0 where
  pub s3_key : Text
  pub xxhash : Text
  pub file_size_bytes : ℕ

abbrev pub row_of : Text × LandingFile → PendingRow
row_of (k, f) = record { s3_key = k; xxhash = f.xxhash; file_size_bytes = f.file_size_bytes }

unfoldable pub fetch_incremental_files_from_db : Dict LandingFile → Log → List PendingRow
unfolding is_pending latest
fetch_incremental_files_from_db registry log =
    map row_of (filter (λ (k, f). is_pending log k f.xxhash) registry)

-- An empty batch touches nothing. `takes` tells whether the database takes a batch, which it does as
-- a whole or not at all; `none` is the exception.
unfoldable pub commit_ingestion_attempts : (Log → Bool) → Log → Log → Option Log
commit_ingestion_attempts takes [] log = some log
commit_ingestion_attempts takes (a ∷ attempts) log =
    if takes (a ∷ attempts) then some (log ++ (a ∷ attempts)) else none
