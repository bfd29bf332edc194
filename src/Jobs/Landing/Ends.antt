-- ===== src/Jobs/Landing/Ends.antt =====
-- The landing job as a whole: its output, the registry and the counter, on every way that it ends.
use entsoe_pipeline.Prelude.{◌≡◌, Bool, true, false}
use entsoe_pipeline.Api.Counter.{ApiRequestCounter, requests}
use entsoe_pipeline.Io.Registry.{Store}
use entsoe_pipeline.Io.Sync.Step.{IsBacked}
use entsoe_pipeline.Jobs.Landing.{JobEnd, output, exited}

-- What holds at every end of the job after its first environment.
abbrev pub EndsWell : JobEnd → Type 0
EndsWell (output totals store counter) =
    (totals.processed ≡ totals.downloaded) × IsBacked store × (requests counter ≡ 0)
EndsWell (exited store counter) = IsBacked store × (requests counter ≡ 0)

-- By whether the job gets as far as its environments; else it exits and nothing has changed.
abbrev pub EndsAs : Bool → Store → ApiRequestCounter → JobEnd → Type 0
EndsAs true before counter end = EndsWell end
EndsAs false before counter end = end ≡ exited before counter
