-- ===== src/Lakehouse/Staging/Outcome.antt =====
-- What a run of the staging job leaves: its log, its metrics and the files that are still pending.
use mathlib.Core.List.{append-nil, append_assoc}
use entsoe_pipeline.Prelude.{
  ℕ, ◌+◌, ◌<◌, ◌≡◌, inl, inr, refl, ap, ◌∙◌, Bool, false, not, ◌||◌, none, some, List, [], ◌∷◌,
  ◌++◌, ◌&&◌, Bool-cases, length, map, sum_by, Text, ◌==◌, Dict, Option-cases, if◌then◌else◌, arith,
}
use entsoe_pipeline.Io.Registry.{LandingFile}
use entsoe_pipeline.Classifier.{ClassifierConfig}
use entsoe_pipeline.Lakehouse.Attempts.{
  IngestionAttemptLog, Log, is_failed, latest, is_pending, commit_ingestion_attempts,
}
use entsoe_pipeline.Lakehouse.Attempts.Latest.{mentions, latest-append_other, latest-append_newer}
use entsoe_pipeline.Lakehouse.Gateway.{IngestibleFile, Groups, get_incremental_files_to_ingest}
use entsoe_pipeline.Lakehouse.Gateway.Groups.{total}
use entsoe_pipeline.Lakehouse.Staging.Expected.{success_of, failure_of, attempts_of, attempts}
use entsoe_pipeline.Lakehouse.Staging.{
  LoadOutcome, Platform, JobState, JobResult, success_log, failed_log, fail_group, commit_group,
  load_group, ingest_group, unless_exited, ingest_groups, main, begun, with_session,
  after_preflight, loaded, load_failed, finished, exited,
}

pub commit_appends :
    (takes : Log → Bool) (batch log log' : Log)
    → commit_ingestion_attempts takes batch log ≡ some log'
    → log' ≡ log ++ batch
unfolding commit_ingestion_attempts
commit_appends takes [] log log' h = ground (arith, append-nil log)
commit_appends takes (a ∷ batch) log log' h = ground arith

commit_refused :
    (takes : Log → Bool) (batch log : Log)
    → commit_ingestion_attempts takes batch log ≡ none
    → takes batch ≡ false
unfolding commit_ingestion_attempts
commit_refused takes [] log h = ground arith
commit_refused takes (a ∷ batch) log h = ground arith

module _ (p : Platform) where
  abbrev outcome_logs : Text → List IngestibleFile → LoadOutcome → Log
  outcome_logs c files (loaded table_name) =
      if p.takes_success c
      then map (success_log p c table_name) files
      else map (failed_log p c (p.commit_error c)) files
  outcome_logs c files (load_failed message) = map (failed_log p c message) files

  abbrev logged_by : Groups → Log
  logged_by [] = []
  logged_by ((c, files) ∷ groups) =
      outcome_logs c files
        (p.load c (map (λ f. f.s3_key) files) (sum_by (λ f. f.file_size_bytes) files))
      ++ logged_by groups

  pub success_logs_are :
      (c table_name : Text) (files : List IngestibleFile)
      → map (success_log p c table_name) files ≡ map (success_of p c table_name) files
  unfolding success_log
  success_logs_are c table_name files = refl

  pub failed_logs_are :
      (c message : Text) (files : List IngestibleFile)
      → map (failed_log p c message) files ≡ map (failure_of p c message) files
  unfolding failed_log
  failed_logs_are c message files = refl

  outcome_logs_are :
      (c : Text) (files : List IngestibleFile) (o : LoadOutcome)
      → outcome_logs c files o ≡ attempts_of p c files o
  unfolding success_log failed_log
  outcome_logs_are c files (loaded table_name) = refl
  outcome_logs_are c files (load_failed message) = refl

  logged_by-attempts : (groups : Groups) → logged_by groups ≡ attempts p groups
  logged_by-attempts [] = refl
  logged_by-attempts ((c, files) ∷ groups) =
      let o = p.load c (map (λ f. f.s3_key) files) (sum_by (λ f. f.file_size_bytes) files) in
      rw (outcome_logs_are c files o, logged_by-attempts groups) refl

  abbrev Settles : JobState → Log → ℕ → JobState → Type 0
  Settles s batch n t =
      (t.log ≡ s.log ++ batch)
      × (t.total_processed + t.total_failed ≡ s.total_processed + s.total_failed + n)

  fail_group_lem :
      (c : Text) (files : List IngestibleFile) (message : Text) (s t : JobState)
      → fail_group p c files message s ≡ finished t
      → Settles s (map (failed_log p c message) files) (length files) t
  unfolding fail_group
  fail_group_lem c files message s t h =
      elim (Option-cases (
        commit_ingestion_attempts (λ _. p.namespaces_load c && p.takes_failed c)
          (map (failed_log p c message) files) s.log)) [
            | inl e ↦ ground (arith, e)
            | inr (log, e) ↦ ground (
              arith,
              e,
              commit_appends (λ _. p.namespaces_load c && p.takes_failed c)
                  (map (failed_log p c message) files) s.log log e,
            )
          ]

  outcome_taken :
      (c : Text) (files : List IngestibleFile) (table_name : Text) (log log' : Log)
      → commit_ingestion_attempts
          (λ _. p.takes_success c)
          (map (success_log p c table_name) files)
          log
        ≡ some log'
      → log' ≡ log ++ outcome_logs c files (loaded table_name)
  unfolding commit_ingestion_attempts
  outcome_taken c [] table_name log log' h = ground (arith, append-nil log)
  outcome_taken c (f ∷ files) table_name log log' h = ground arith

  commit_group_lem :
      (c : Text) (files : List IngestibleFile) (table_name : Text) (s t : JobState)
      → commit_group p c files table_name s ≡ finished t
      → Settles s (outcome_logs c files (loaded table_name)) (length files) t
  unfolding commit_group
  commit_group_lem c files table_name s t h =
      elim (Option-cases (
        commit_ingestion_attempts (λ _. p.takes_success c) (map (success_log p c table_name) files)
          s.log)) [
            | inl e ↦ ground (
              arith,
              e,
              commit_refused (λ _. p.takes_success c) (map (success_log p c table_name) files) s.log
                  e,
              fail_group_lem c files (p.commit_error c) s t,
            )
            | inr (log, e) ↦ ground (arith, e, outcome_taken c files table_name s.log log e)
          ]

  load_group_lem :
      (c : Text) (files : List IngestibleFile) (o : LoadOutcome) (s t : JobState)
      → load_group p c files o s ≡ finished t
      → Settles s (outcome_logs c files o) (length files) t
  unfolding load_group
  load_group_lem c files (loaded table_name) s t h = commit_group_lem c files table_name s t h
  load_group_lem c files (load_failed message) s t h = fail_group_lem c files message s t h

  Settles-append :
      (l m : Log) (a b : ℕ) (s u t : JobState)
      → Settles s l a u
      → Settles u m b t
      → Settles s (l ++ m) (a + b) t
  Settles-append l m a b s u t x y =
      (y.0 ∙ ap (λ z. z ++ m) x.0 ∙ append_assoc s.log l m, omega (arith, x.1, y.1))

  unless_exited_lem :
      (r : JobResult) (k : JobState → JobResult) (t : JobState)
      → unless_exited p r k ≡ finished t
      → (u : JobState) × (r ≡ finished u) × (k u ≡ finished t)
  unless_exited_lem (finished u) k t h = (u, refl, h)
  unless_exited_lem (exited u) k t h = ground (arith, h)

  ingest_groups_lem :
      (groups : Groups) (s t : JobState)
      → ingest_groups p groups s ≡ finished t
      → Settles s (logged_by groups) (total groups) t
  unfolding ingest_groups ingest_group total
  ingest_groups_lem [] s t h = ground (arith, h, append-nil s.log)
  ingest_groups_lem ((c, files) ∷ groups) s t h =
      let keys = map (λ f. f.s3_key) files in
      let size = sum_by (λ f. f.file_size_bytes) files in
      let (u, e, k) = unless_exited_lem (ingest_group p c files s) (ingest_groups p groups) t h in
      Settles-append (outcome_logs c files (p.load c keys size)) (logged_by groups) (length files)
        (total groups) s u t (load_group_lem c files (p.load c keys size) s u e)
        (ingest_groups_lem groups u t k)

  with_session_lem :
      (groups : Groups) (s t : JobState)
      → with_session p groups (ingest_groups p) s ≡ finished t
      → ingest_groups p groups s ≡ finished t
  unfolding ingest_groups
  with_session_lem [] s t h = h
  with_session_lem (group ∷ groups) s t h = elim (Bool-cases p.session_starts) [
    | inl e ↦ rw e at h
    | inr e ↦ absurd (cc (rw e at h))
  ]

  after_preflight_lem :
      (r : JobResult) (s t : JobState) → after_preflight p r s ≡ finished t → r ≡ finished t
  after_preflight_lem r s t h = ground (arith, h)

  main_run :
      (classifier : ClassifierConfig) (registry : Dict LandingFile) (log : Log) (t : JobState)
      → main p classifier registry log ≡ finished t
      → ingest_groups p (get_incremental_files_to_ingest classifier registry log) (begun p log)
        ≡ finished t
  unfolding main
  main_run classifier registry log t h =
      let groups = get_incremental_files_to_ingest classifier registry log in
      with_session_lem groups (begun p log) t (
        after_preflight_lem (with_session p groups (ingest_groups p) (begun p log)) (begun p log) t
          h)

  -- A run of the job that does not exit has logged exactly one attempt for each file it was given,
  -- in the order of the groups, with the file's key and hash: a success with the table when the load
  -- and its commit went through, else a failure with the exception's message, cut to 500 characters.
  -- Nothing else in the log changes, and the two metrics add up to the number of files.
  pub main_lem :
      (classifier : ClassifierConfig) (registry : Dict LandingFile) (log : Log) (t : JobState)
      → main p classifier registry log ≡ finished t
      → (t.log ≡ log ++ attempts p (get_incremental_files_to_ingest classifier registry log))
        × (t.total_processed + t.total_failed
            ≡ total (get_incremental_files_to_ingest classifier registry log))
  main_lem classifier registry log t h =
      let groups = get_incremental_files_to_ingest classifier registry log in
      let settled =
        ingest_groups_lem groups (begun p log) t (main_run classifier registry log t h) in
      (settled.0 ∙ ap (λ new. log ++ new) (logged_by-attempts groups), omega (arith, settled.1))

  is_pending-latest :
      (k x : Text) (log : Log) (b : IngestionAttemptLog)
      → latest k log ≡ some b
      → is_pending log k x ≡ (is_failed b.status || not (x == b.xxhash))
  unfolding is_pending
  is_pending-latest k x log b e = rw (e, is_pending) refl

  is_pending_same :
      (k x : Text) (log log' : Log)
      → latest k log' ≡ latest k log
      → is_pending log' k x ≡ is_pending log k x
  unfolding is_pending
  is_pending_same k x log log' e = rw (e, is_pending) refl

  -- After a run of the job that does not exit: a file whose last attempt of this run is `b`, and whose
  -- earlier attempts are all older, is pending exactly when `b` failed or was made with another hash.
  pub main-is_pending :
      (classifier : ClassifierConfig) (registry : Dict LandingFile) (log : Log) (t : JobState)
      (k x : Text) (b : IngestionAttemptLog)
      → main p classifier registry log ≡ finished t
      → latest k (attempts p (get_incremental_files_to_ingest classifier registry log)) ≡ some b
      → ((o : IngestionAttemptLog) → latest k log ≡ some o → o.ingested_at < b.ingested_at)
      → is_pending t.log k x ≡ (is_failed b.status || not (x == b.xxhash))
  main-is_pending classifier registry log t k x b h e newer = is_pending-latest k x t.log b (
      ap (latest k) ((main_lem classifier registry log t h).0)
      ∙ latest-append_newer k log
          (attempts p (get_incremental_files_to_ingest classifier registry log)) b e newer)

  -- After a run of the job that does not exit, a file that the run did not attempt is pending exactly
  -- when it was pending before.
  pub main-is_pending_other :
      (classifier : ClassifierConfig) (registry : Dict LandingFile) (log : Log) (t : JobState)
      (k x : Text)
      → main p classifier registry log ≡ finished t
      → mentions k (attempts p (get_incremental_files_to_ingest classifier registry log)) ≡ false
      → is_pending t.log k x ≡ is_pending log k x
  main-is_pending_other classifier registry log t k x h absent = is_pending_same k x log t.log (
      ap (latest k) ((main_lem classifier registry log t h).0)
      ∙ latest-append_other k log
          (attempts p (get_incremental_files_to_ingest classifier registry log)) absent)
