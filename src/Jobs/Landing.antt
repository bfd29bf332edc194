-- ===== src/Jobs/Landing.antt =====
-- jobs/landing/ingest_my_entsoe_domains.py: one synchronisation for each environment, and the sums.
-- The preflight and the reading of the checklist are asked for whether they raise.
pub mod Ends
use entsoe_pipeline.Prelude.{ℕ, ◌+◌, Bool, if◌then◌else◌, Option, none, some, List, [], ◌∷◌, Text}
use entsoe_pipeline.Api.Counter.{ApiRequestCounter}
use entsoe_pipeline.Io.Checklist.{DomainsConfig}
use entsoe_pipeline.Io.Registry.{Store}
use entsoe_pipeline.Io.Sync.{Services, State, sync_active_domains}
use entsoe_pipeline.Jobs.Runs.{RunsTracker, new_tracker, start, add_metrics, stop}
use entsoe_pipeline.Jobs.Checklists.{selected_environments}

pub record World : Type 0 where
  -- whether the preflight passes, and whether the checklist and the active environment can be read
  pub preflight_passes : Bool
  pub configuration_loads : Bool
  pub checklist : DomainsConfig
  pub schema : List Text
  pub active_environment : Text
  pub kestra_id : Option Text
  -- by environment: a fresh id, the time, the world of the synchronisation with its run's id, and
  -- the counter of requests after it
  pub uuid : Text → Text
  pub now : Text → ℕ
  pub services : Text → Text → Services
  pub counter_after : Text → ApiRequestCounter → ApiRequestCounter

pub record Totals : Type 0 where
  pub processed : ℕ
  pub downloaded : ℕ
  pub skipped : ℕ

-- The end of the job: its output, or `sys.exit(1)`. The store and the counter stay.
pub data JobEnd : Type 0 where
  output : Totals → Store → ApiRequestCounter → JobEnd
  exited : Store → ApiRequestCounter → JobEnd

abbrev pub add_totals : Totals → RunsTracker → Totals
add_totals totals tracker = record {
  processed = totals.processed + tracker.processed;
  downloaded = totals.downloaded + tracker.downloaded;
  skipped = totals.skipped + tracker.skipped;
}

module _ (w : World) where
  abbrev pub tracker_of : Text → RunsTracker
  tracker_of env = start (w.now env) (new_tracker w.kestra_id (w.uuid env))

  abbrev pub tracked : Text → State → RunsTracker
  tracked env s =
      add_metrics s.metrics.processed s.metrics.downloaded s.metrics.skipped (tracker_of env)

  abbrev pub after_sync :
      Text
      → Option State
      → Totals
      → Store
      → ApiRequestCounter
      → (Totals → Store → ApiRequestCounter → JobEnd)
      → JobEnd
  after_sync env none totals store counter k = exited store counter
  after_sync env (some s) totals store counter k =
      k (add_totals totals (tracked env s)) s.store counter

  unfoldable pub sync_environments : List Text → Totals → Store → ApiRequestCounter → JobEnd
  unfolding sync_active_domains stop
  sync_environments [] totals store counter = output totals store counter
  sync_environments (env ∷ envs) totals store counter =
      after_sync env
        (sync_active_domains (w.services env (tracker_of env).run_id) env w.checklist w.schema
          store)
        totals store (stop (w.counter_after env counter)).1 (sync_environments envs)

  unfoldable pub run_landing_job : Store → ApiRequestCounter → JobEnd
  unfolding sync_environments selected_environments
  run_landing_job store counter =
      let run =
        sync_environments (selected_environments w.active_environment w.checklist)
          (record { processed = 0; downloaded = 0; skipped = 0 }) store counter in
      if w.preflight_passes
      then if w.configuration_loads then run else exited store counter
      else exited store counter
