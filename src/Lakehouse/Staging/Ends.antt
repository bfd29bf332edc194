-- ===== src/Lakehouse/Staging/Ends.antt =====
-- When the staging job reaches its end.
use entsoe_pipeline.Prelude.{
  ◌+◌, ◌≡◌, inl, inr, refl, Bool, true, false, some, List, [], ◌∷◌, ◌++◌, ◌&&◌, length, map, sum_by,
  Text, Dict, Option-cases, if◌then◌else◌,
}
use entsoe_pipeline.Io.Registry.{LandingFile}
use entsoe_pipeline.Classifier.{ClassifierConfig}
use entsoe_pipeline.Lakehouse.Attempts.{Log, commit_ingestion_attempts}
use entsoe_pipeline.Lakehouse.Gateway.{IngestibleFile, Groups, get_incremental_files_to_ingest}
use entsoe_pipeline.Lakehouse.Staging.{
  LoadOutcome, Platform, JobState, JobResult, success_log, failed_log, fail_group, commit_group,
  load_group, ingest_group, ingest_groups, main, begun, with_session, loaded, load_failed, finished,
  exited,
}

module _ (p : Platform) where
  commit_accepted :
      (takes : Log → Bool) (batch log : Log)
      → ((l : Log) → takes l ≡ true)
      → (out : Log) × (commit_ingestion_attempts takes batch log ≡ some out)
  unfolding commit_ingestion_attempts
  commit_accepted takes [] log h = (log, refl)
  commit_accepted takes (a ∷ batch) log h = (log ++ (a ∷ batch), rw (h (a ∷ batch)) refl)

  abbrev pub Finishes : JobResult → Type 0
  Finishes r = (t : JobState) × (r ≡ finished t)

  Finishes-if :
      (b : Bool) (r : JobResult) (s : JobState)
      → b ≡ true
      → Finishes r
      → Finishes (if b then r else exited s)
  Finishes-if true r s h k = k
  Finishes-if false r s h k = absurd (cc h)

  module _ (accepts : (c : Text) → (p.namespaces_load c && p.takes_failed c) ≡ true) where
    fail_group-Finishes :
        (c : Text) (files : List IngestibleFile) (message : Text) (s : JobState)
        → Finishes (fail_group p c files message s)
    unfolding fail_group
    fail_group-Finishes c files message s =
        let (out, e) =
          commit_accepted (λ _. p.namespaces_load c && p.takes_failed c)
            (map (failed_log p c message) files) s.log (λ _. accepts c) in
        (
          record s { log = out; total_failed = s.total_failed + length files },
          rw (e, fail_group) refl,
        )

    load_group-Finishes :
        (c : Text) (files : List IngestibleFile) (o : LoadOutcome) (s : JobState)
        → Finishes (load_group p c files o s)
    unfolding load_group commit_group
    load_group-Finishes c files (load_failed message) s = fail_group-Finishes c files message s
    load_group-Finishes c files (loaded table_name) s =
        elim (Option-cases (
          commit_ingestion_attempts (λ _. p.takes_success c)
            (map (success_log p c table_name) files) s.log)) [
              | inl e ↦
                  rw (e, load_group, commit_group)
                    (fail_group-Finishes c files (p.commit_error c) s)
              | inr (log, e) ↦ (
                record s { log = log; total_processed = s.total_processed + length files },
                rw (e, load_group, commit_group) refl,
              )
            ]

    ingest_groups-Finishes : (groups : Groups) (s : JobState) → Finishes (ingest_groups p groups s)
    unfolding ingest_groups ingest_group
    ingest_groups-Finishes [] s = (s, refl)
    ingest_groups-Finishes ((c, files) ∷ groups) s =
        let (u, e) =
          load_group-Finishes c files
            (p.load c (map (λ f. f.s3_key) files) (sum_by (λ f. f.file_size_bytes) files)) s in
        rw e (ingest_groups-Finishes groups u)

    with_session-Finishes :
        (groups : Groups) (s : JobState)
        → p.session_starts ≡ true
        → Finishes (with_session p groups (ingest_groups p) s)
    with_session-Finishes [] s h = (s, refl)
    with_session-Finishes (group ∷ groups) s h =
        Finishes-if p.session_starts (ingest_groups p (group ∷ groups) s) s h
          (ingest_groups-Finishes (group ∷ groups) s)

    -- If the preflight passes, the pending files can be queried, Spark starts and the active environment
    -- is known, and, for each contract, the namespaces can be read and the database takes the batch that
    -- logs a failure, then the job reaches its end, whatever the loads and the commits after them do.
    pub main-Finishes :
        (classifier : ClassifierConfig) (registry : Dict LandingFile) (log : Log)
        → p.preflight_passes ≡ true
        → p.query_works ≡ true
        → p.session_starts ≡ true
        → Finishes (main p classifier registry log)
    unfolding main
    main-Finishes classifier registry log passes works starts =
        let groups = get_incremental_files_to_ingest classifier registry log in
        let run = with_session p groups (ingest_groups p) (begun p log) in
        Finishes-if p.preflight_passes (if p.query_works then run else exited (begun p log))
          (begun p log) passes
          (Finishes-if p.query_works run (begun p log) works
            (with_session-Finishes groups (begun p log) starts))
