-- ===== src/Lakehouse/Loading/Traces.antt =====
-- A run of the staging job over the catalog has such a trace.
use mathlib.Core.List.{append-nil, append_assoc}
use entsoe_pipeline.Prelude.{
  ℕ, ◌≡◌, refl, sym, ap, ◌∙◌, if◌then◌else◌, Bool, true, false, Option, none, some, List, [], ◌∷◌,
  ◌++◌, map, sum_by, Text, contains, lookup, Dict,
}
use entsoe_pipeline.Io.Registry.{LandingFile}
use entsoe_pipeline.Classifier.{ClassifierConfig}
use entsoe_pipeline.Lakehouse.Attempts.{Log}
use entsoe_pipeline.Lakehouse.Gateway.{IngestibleFile, Groups, get_incremental_files_to_ingest}
use entsoe_pipeline.Lakehouse.Reader.{Column, read_landing_csv_dataset}
use entsoe_pipeline.Lakehouse.Tables.{
  Write, Catalog, SparkRun, wrote, raised_error, add_csv_to_iceberg_table,
}
use entsoe_pipeline.Lakehouse.Tables.Outcome.{
  Outcome, contract_table, contract_write, contract_keys, table_name_of-contract_table,
  add_csv_to_iceberg_table_lem,
}
use entsoe_pipeline.Lakehouse.Staging.{
  Platform, JobState, JobResult, finished, exited, LoadOutcome, load_group,
}
use entsoe_pipeline.Lakehouse.Loading.{
  Lakehouse, outcome_of, add_frame, load_files, load_into, ingest_into, unless_ended, ingest_all,
  begun_with, ingest_to_lakehouse,
}
use entsoe_pipeline.Lakehouse.Loading.Traced.{
  target_of, log_of, is_finished, GroupWrites, Traced, ended, not_begun, stopped, next, LogsAs,
  load_group-LogsAs,
}

module _ (lakehouse : Lakehouse) where
  -- The table of a contract
  abbrev pub table_of : Text → Text
  table_of domain = contract_table lakehouse.spark lakehouse.codec lakehouse.schemas [] domain 0

  abbrev Loads : Text → Catalog → LoadOutcome × Catalog → Type 0
  Loads domain c (outcome, d) =
      (ws : List Write) × (d.writes ≡ c.writes ++ ws)
      × GroupWrites (table_of domain) outcome ws
      × (d.temp_views ≡ c.temp_views)

  target-contract_write :
      (df : List Column) (domain : Text) (size n : ℕ) (keys : List Text)
      → target_of
          (contract_write lakehouse.spark lakehouse.codec lakehouse.schemas df domain size keys n)
        ≡ table_of domain
  target-contract_write df domain size n [] = refl
  target-contract_write df domain size n (key ∷ keys) = refl

  outcome_of-Loads :
      (df : List Column) (domain : Text) (size : ℕ) (c : Catalog) (run : SparkRun)
      → Outcome lakehouse.spark lakehouse.codec lakehouse.schemas df domain size c run
      → Loads domain c (outcome_of lakehouse domain run)
  outcome_of-Loads df domain size c (wrote d) (tables, (n, between, more), views) =
      let keys =
        contract_keys lakehouse.spark lakehouse.codec lakehouse.schemas df domain size
          (lookup domain lakehouse.schemas) in
      let w =
        contract_write lakehouse.spark lakehouse.codec lakehouse.schemas df domain size keys n in
      (
        w ∷ [],
        more,
        (
          table_name_of-contract_table lakehouse.spark lakehouse.codec lakehouse.schemas df domain
              size,
          (w, target-contract_write df domain size n keys, refl),
        ),
        views,
      )
  outcome_of-Loads df domain size c (raised_error d) h =
      ([], h.0 ∙ sym (append-nil c.writes), refl, h.1)

  add_frame-Loads :
      (domain : Text) (size : ℕ) (frame : Option (List Column)) (c : Catalog)
      → contains c.temp_views lakehouse.spark.view_name ≡ false
      → Loads domain c (add_frame lakehouse domain size frame c)
  add_frame-Loads domain size none c h = ([], sym (append-nil c.writes), refl, refl)
  add_frame-Loads domain size (some df) c h =
      outcome_of-Loads df domain size c
        (add_csv_to_iceberg_table lakehouse.spark lakehouse.codec lakehouse.schemas df domain size
          c)
        (add_csv_to_iceberg_table_lem lakehouse.spark lakehouse.codec lakehouse.schemas df domain
          size c h)

  -- The new attempts of the log and the new writes of the catalog are those of the groups; the temporary
  -- views are those from before.
  abbrev pub Accounts : Platform → Groups → Log → Catalog → JobResult × Catalog → Type 0
  Accounts p groups log c (r, d) =
      (new : Log) × (ws : List Write) × (log_of r ≡ log ++ new)
      × (d.writes ≡ c.writes ++ ws)
      × Traced p table_of (is_finished r) groups new ws
      × (d.temp_views ≡ c.temp_views)

  module _ (p : Platform) (domain : Text) (files : List IngestibleFile) (groups : Groups) where
    group-Accounts :
        (o : LoadOutcome) (r : JobResult) (log : Log) (c d : Catalog)
        (k : JobState → Catalog → JobResult × Catalog)
        → LogsAs p domain files o log r
        → Loads domain c (o, d)
        → ((t : JobState) → Accounts p groups t.log d (k t d))
        → Accounts p ((domain, files) ∷ groups) log c (unless_ended lakehouse p (r, d) k)
    group-Accounts o (finished t) log c d k (new, same, logged) (ws, more, wrote_as, views) f =
        let (rest, vs, then_log, then_writes, traced, then_views) = f t in
        (
          new ++ rest,
          ws ++ vs,
          then_log ∙ ap (λ l. l ++ rest) same ∙ append_assoc log new rest,
          then_writes ∙ ap (λ l. l ++ vs) more ∙ append_assoc c.writes ws vs,
          next domain files groups o (is_finished (k t d).0) new rest ws vs logged wrote_as traced,
          then_views ∙ views,
        )
    group-Accounts o (exited t) log c d k (new, same, logged) (ws, more, wrote_as, views) f =
        (new, ws, same, more, stopped domain files groups o new ws logged wrote_as, views)

    load_into-Accounts :
        (load : LoadOutcome × Catalog) (s : JobState) (c : Catalog)
        (k : JobState → Catalog → JobResult × Catalog)
        → Loads domain c load
        → ((t : JobState) (d : Catalog)
            → d.temp_views ≡ c.temp_views
            → Accounts p groups t.log d (k t d))
        → Accounts p
            ((domain, files) ∷ groups)
            s.log
            c
            (unless_ended lakehouse p (load_into lakehouse p domain files load s) k)
    load_into-Accounts (o, d) s c k loads f =
        group-Accounts o (load_group p domain files o s) s.log c d k
          (load_group-LogsAs p domain files o s) loads (λ t. f t d loads.3)

  ingest_all-Accounts :
      (p : Platform) (groups : Groups) (s : JobState) (c : Catalog)
      → contains c.temp_views lakehouse.spark.view_name ≡ false
      → Accounts p groups s.log c (ingest_all lakehouse p groups s c)
  unfolding ingest_all ingest_into load_files
  ingest_all-Accounts p [] s c h =
      ([], [], sym (append-nil s.log), sym (append-nil c.writes), ended, refl)
  ingest_all-Accounts p ((domain, files) ∷ groups) s c h =
      let s3_keys = map (λ f. f.s3_key) files in
      let size = sum_by (λ f. f.file_size_bytes) files in
      load_into-Accounts p domain files groups (load_files lakehouse domain s3_keys size c) s c
        (ingest_all lakehouse p groups)
        (add_frame-Loads domain size
          (read_landing_csv_dataset lakehouse.schemas lakehouse.landing_bucket lakehouse.header_of
            lakehouse.infer s3_keys domain)
          c h)
        (λ t d views.
          ingest_all-Accounts p groups t d
            (ap (λ vs. contains vs lakehouse.spark.view_name) views ∙ h))

  not_begun-Accounts :
      (p : Platform) (groups : Groups) (s : JobState) (c : Catalog)
      → Accounts p groups s.log c (exited s, c)
  not_begun-Accounts p groups s c =
      ([], [], sym (append-nil s.log), sym (append-nil c.writes), not_begun groups, refl)

  either-Accounts :
      (p : Platform) (groups : Groups) (s : JobState) (c : Catalog) (b : Bool)
      (run : JobResult × Catalog)
      → Accounts p groups s.log c run
      → Accounts p groups s.log c (if b then run else (exited s, c))
  either-Accounts p groups s c true run h = h
  either-Accounts p groups s c false run h = not_begun-Accounts p groups s c

  begun_with-Accounts :
      (p : Platform) (groups : Groups) (s : JobState) (c : Catalog)
      → contains c.temp_views lakehouse.spark.view_name ≡ false
      → Accounts p groups s.log c (begun_with lakehouse p groups s c)
  begun_with-Accounts p [] s c h =
      ([], [], sym (append-nil s.log), sym (append-nil c.writes), ended, refl)
  begun_with-Accounts p (group ∷ groups) s c h =
      either-Accounts p (group ∷ groups) s c p.session_starts
        (ingest_all lakehouse p (group ∷ groups) s c) (ingest_all-Accounts p (group ∷ groups) s c h)

-- In a session whose views have a fresh name, a run of the staging job, whether it reaches its end or
-- exits, appends attempts to the log and writes to the catalog contract by contract, in the order of the
-- pending groups. A load that goes through makes exactly one write, to the table of its contract, and
-- one that fails makes none. The files of a contract are logged as loaded only where its own load has
-- gone through, in this run, and with that table; else as failed. At its end the job has gone through
-- all groups; where it exits, nothing is logged for the contract that it exits at, nor for those after.
-- The temporary views are those from before.
pub ingest_to_lakehouse-Accounts :
    (lakehouse : Lakehouse) (p : Platform) (classifier : ClassifierConfig)
    (registry : Dict LandingFile) (log : Log) (c : Catalog)
    → contains c.temp_views lakehouse.spark.view_name ≡ false
    → Accounts lakehouse p
        (get_incremental_files_to_ingest classifier registry log)
        log
        c
        (ingest_to_lakehouse lakehouse p classifier registry log c)
unfolding ingest_to_lakehouse
ingest_to_lakehouse-Accounts lakehouse p classifier registry log c h =
    let groups = get_incremental_files_to_ingest classifier registry log in
    let s : JobState = record { log = log; total_processed = 0; total_failed = 0 } in
    let run = begun_with lakehouse p groups s c in
    either-Accounts lakehouse p groups s c p.preflight_passes
      (if p.query_works then run else (exited s, c))
      (either-Accounts lakehouse p groups s c p.query_works run
        (begun_with-Accounts lakehouse p groups s c h))
