-- ===== src/Tests/Transfer.antt =====
-- io/: one file of one active folder, transferred into an empty store.
use mathlib.Core.Option.{get_or}
use entsoe_pipeline.Prelude.{
  ◌≡◌, refl, true, none, some, List, [], ◌∷◌, length, map, filter, All, Text, text, Dict, ◌==◌,
  upper, insert, split, lower, contains, lookup, arith, lookup-nil,
}
use entsoe_pipeline.Io.Fingerprint.Distinct.{idempotency_str_injective}
use entsoe_pipeline.Io.Checklist.{Selection, enabled, DomainsConfig}
use entsoe_pipeline.Io.Schema.{TargetMapping, resolve_target_mappings}
use entsoe_pipeline.Io.Schema.Paths.{is_target, IsResolved, resolve_target_mappings_lem}
use entsoe_pipeline.Io.Remote.{FileMeta, select_files_to_sync}
use entsoe_pipeline.Io.Registry.{LandingFile, Store}
use entsoe_pipeline.Io.Sync.{written, Services, State, initial, sync_active_domains, sync_mappings}
use entsoe_pipeline.Io.Sync.Step.{IsBacked}
use entsoe_pipeline.Io.Sync.Durable.{sync_active_domains-IsBacked, sync_active_domains_tmp}
use entsoe_pipeline.Io.Sync.Repeat.Work.{all_jobs, skip_many, IsConsistent}
use entsoe_pipeline.Io.Sync.Repeat.Clean.{sync_mappings_twice}

abbrev one_file : FileMeta
one_file = record {
  name = text "a.csv";
  original_size = 10;
  last_updated = text "2026-01-01";
  file_id = text "1";
  remote_folder = [];
}

abbrev services : Services
services = record {
  list_folder = λ folder root. some (one_file ∷ []);
  extensions = text ".csv" ∷ [];
  post_download = λ folder filename root. some ((text "a.csv", 65 ∷ 66 ∷ []) ∷ []);
  free_bytes = λ key. 209715200;
  xxh3_128 = λ s. s;
  head_answers = λ key. true;
  write_bytes = λ key content. written;
  unlink_works = λ key. true;
  upload_works = λ key. true;
  from_iso = λ s. some (length s);
  strp_time = λ s. none;
  select_works = λ key. true;
  database_works = λ key. true;
  now = 7;
  run_id = text "run";
}

abbrev config : DomainsConfig
config =
    (
      text "PROD",
      record {
        name = text "TP_export";
        domains = (text "Load", (text "Load_R3", enabled) ∷ []) ∷ [];
        folders = [];
      }
          ∷ [],
    )
    ∷ []

abbrev schema : List Text
schema = text "iop/TP_export/Load/Load_R3" ∷ text "prod/TP_export/Load/Load_R3" ∷ []

abbrev empty : Store
empty = record { registry = []; bucket = []; tmp_files = [] }

abbrev final : State
final =
    get_or (sync_active_domains services (text "prod") config schema empty) (initial services empty)

run_returns : sync_active_domains services (text "prod") config schema empty ≡ some final
unfolding sync_active_domains ◌==◌ upper insert split lower contains
run_returns = refl

run_downloads :
    (final.metrics.downloaded ≡ 1)
    × (length final.store.bucket ≡ 1)
    × (length final.store.registry ≡ 1)
unfolding sync_active_domains ◌==◌ upper insert split lower contains lookup
run_downloads = (refl, refl, refl)

empty-IsBacked : IsBacked empty
empty-IsBacked = record { object = λ k r e. ground (arith, e, lookup-nil {V = LandingFile} k) }

sync_active_domains-IsBacked_example : IsBacked final.store
sync_active_domains-IsBacked_example =
    sync_active_domains-IsBacked services (text "prod") config schema empty final empty-IsBacked
      run_returns

sync_active_domains_tmp_example : final.store.tmp_files ≡ []
sync_active_domains_tmp_example =
    sync_active_domains_tmp services (text "prod") config schema empty final (λ k b. refl)
      (λ k. refl) (λ k. refl) refl run_returns

abbrev active : Dict Selection
active = (text "Load_R3", enabled) ∷ []

abbrev mappings : List TargetMapping
mappings = get_or (resolve_target_mappings (text "prod") active schema) []

mappings_resolve : resolve_target_mappings (text "prod") active schema ≡ some mappings
unfolding resolve_target_mappings split ◌==◌ lower contains
mappings_resolve = refl

mappings_run : length mappings ≡ 1
unfolding resolve_target_mappings split ◌==◌ lower contains
mappings_run = refl

resolve_target_mappings_lem_example :
    (map (λ m. m.schema_path) mappings ≡ filter (is_target (text "prod") active) schema)
    × All (IsResolved (text "prod")) mappings
resolve_target_mappings_lem_example =
    resolve_target_mappings_lem (text "prod") active schema mappings mappings_resolve

abbrev start : State
start = initial services empty

abbrev load_mapping : List TargetMapping
load_mapping =
    record {
      schema_path = text "prod/TP_export/Load/Load_R3";
      active_folder = text "Load_R3";
      top_level_folder = text "TP_export";
      remote_folder_path = text "Load/Load_R3";
      val = enabled;
    }
    ∷ []

mappings_clean : (sync_mappings services load_mapping start).metrics.errors ≡ start.metrics.errors
unfolding sync_mappings ◌==◌ lookup
mappings_clean = refl

jobs-IsConsistent : IsConsistent services (all_jobs services load_mapping)
unfolding select_files_to_sync ◌==◌
jobs-IsConsistent = ((λ e. refl, tt), tt)

sync_mappings_twice_example :
    sync_mappings services load_mapping (sync_mappings services load_mapping start)
    ≡ skip_many services
        (length (all_jobs services load_mapping))
        (sync_mappings services load_mapping start)
sync_mappings_twice_example =
    sync_mappings_twice services load_mapping start (λ k. refl) jobs-IsConsistent mappings_clean

idempotency_str_injective_example :
    (one_file.original_size ≡ 10) × (one_file.last_updated ≡ text "2026-01-01")
idempotency_str_injective_example =
    idempotency_str_injective (text "a.csv") one_file.original_size 10 one_file.last_updated
      (text "2026-01-01") refl
