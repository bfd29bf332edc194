-- ===== src/Jobs/Runs.antt =====
-- src/entsoe_pipeline/logger/core/runs_tracker.py and logger/runs_logger.py: the metrics of a run, and
-- the counter of requests that its end logs and resets.
use entsoe_pipeline.Prelude.{
  ℕ, ◌+◌, ◌≡◌, refl, Bool, false, Option, none, some, [], ◌∷◌, Text, ltb, if◌then◌else◌, arith,
  Bool-cases, inl, inr,
}
use entsoe_pipeline.Api.Counter.{ApiRequestCounter, reset, requests}

pub record RunsTracker : Type 0 where
  pub run_id : Text
  pub processed : ℕ
  pub downloaded : ℕ
  pub skipped : ℕ
  pub start_time : Option ℕ

-- `kestra_id or str(uuid.uuid4())`
abbrev pub run_id_of : Option Text → Text → Text
run_id_of none uuid = uuid
run_id_of (some id) uuid = elim id [ [] ↦ uuid | c ∷ s ↦ c ∷ s ]

abbrev pub new_tracker : Option Text → Text → RunsTracker
new_tracker kestra_id uuid = record {
  run_id = run_id_of kestra_id uuid;
  processed = 0;
  downloaded = 0;
  skipped = 0;
  start_time = none;
}

abbrev pub start : ℕ → RunsTracker → RunsTracker
start now t = record t { start_time = some now }

abbrev pub add_metrics : ℕ → ℕ → ℕ → RunsTracker → RunsTracker
add_metrics processed downloaded skipped t = record t {
  processed = t.processed + processed;
  downloaded = t.downloaded + downloaded;
  skipped = t.skipped + skipped;
}

-- The counter after the end of a run; the answer is `False`, so that an exception goes on.
unfoldable pub stop : ApiRequestCounter → Bool × ApiRequestCounter
unfolding reset
stop counter = (false, (if ltb 0 (requests counter) then reset counter else counter))

pub requests-stop : (counter : ApiRequestCounter) → requests (stop counter).1 ≡ 0
unfolding stop reset
requests-stop counter = elim (Bool-cases (ltb 0 (requests counter))) [
  | inl e ↦ rw e refl
  | inr e ↦ rw e (ground (arith, e))
]
