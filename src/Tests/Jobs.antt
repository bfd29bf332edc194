-- ===== src/Tests/Jobs.antt =====
-- The landing jobs for a checklist with one folder of a domain, one legacy folder, and one with an
-- empty list.
use entsoe_pipeline.Prelude.{
  ◌≡◌, refl, true, none, some, [], ◌∷◌, All, text, ◌==◌, lookup, upper, insert,
}
use entsoe_pipeline.Io.Checklist.{
  enabled, files, DomainsConfig, extract_active_folders, matching_env,
}
use entsoe_pipeline.Io.Registry.{Store}
use entsoe_pipeline.Io.Sync.{written, Services}
use entsoe_pipeline.Api.Counter.{ApiRequestCounter, increment}
use entsoe_pipeline.JobConfig.Readback.{is_active}
use entsoe_pipeline.Jobs.Landing.{World}
use entsoe_pipeline.Jobs.Prepare.{domain_crawl, legacy_crawl, prepare_calls}
use entsoe_pipeline.Jobs.Prepare.Calls.{IsActiveCall, prepare_calls-IsActiveCall}

abbrev checklist : DomainsConfig
checklist =
    (
      text "Prod",
      record {
        name = text "TP_export";
        domains = (text "Load", (text "Load_R3", enabled) ∷ (text "None_R3", files []) ∷ []) ∷ [];
        folders = [];
      }
          ∷ record {
            name = text "TP_Legacy_Publications";
            domains = [];
            folders = (text "Old", enabled) ∷ [];
          }
          ∷ [],
    )
    ∷ []

prepare_calls_run :
    prepare_calls (text "IOP") checklist
    ≡ domain_crawl (text "Prod") (text "Load") (text "Load_R3" ∷ [])
      ∷ legacy_crawl (text "Prod") (text "Old" ∷ [])
      ∷ []
unfolding prepare_calls matching_env upper ◌==◌ insert extract_active_folders
prepare_calls_run = refl

-- The folder with an empty list is synchronised, and not prepared.
empty_list_is_active :
    is_active (text "None_R3") (extract_active_folders (text "Prod") checklist) ≡ true
unfolding matching_env upper ◌==◌ insert extract_active_folders lookup
empty_list_is_active = refl

prepare_calls-IsActiveCall_example :
    All (IsActiveCall checklist) (prepare_calls (text "IOP") checklist)
prepare_calls-IsActiveCall_example = prepare_calls-IsActiveCall (text "IOP") checklist

abbrev services : Services
services = record {
  list_folder = λ folder root. some (
      record {
        name = text "a.csv";
        original_size = 10;
        last_updated = text "2026-01-01";
        file_id = text "1";
        remote_folder = [];
      }
      ∷ []);
  extensions = text ".csv" ∷ [];
  post_download = λ folder filename root. some ((text "a.csv", 65 ∷ []) ∷ []);
  free_bytes = λ key. 209715200;
  xxh3_128 = λ s. s;
  head_answers = λ key. true;
  write_bytes = λ key content. written;
  unlink_works = λ key. true;
  upload_works = λ key. true;
  from_iso = λ s. some 1;
  strp_time = λ s. none;
  select_works = λ key. true;
  database_works = λ key. true;
  now = 7;
  run_id = text "run";
}

abbrev world : World
world = record {
  preflight_passes = true;
  configuration_loads = true;
  checklist = checklist;
  schema = text "prod/TP_export/Load/Load_R3" ∷ [];
  active_environment = text "IOP";
  kestra_id = none;
  uuid = λ env. text "u";
  now = λ env. 7;
  services = λ env run_id. services;
  counter_after = λ env. increment env (text "TP_export");
}

abbrev empty : Store
empty = record { registry = []; bucket = []; tmp_files = [] }

abbrev no_requests : ApiRequestCounter
no_requests = record { iop_export = 0; iop_legacy = 0; prod_export = 0; prod_legacy = 0 }
