-- ===== src/Tests/Checklists.antt =====
-- fms_metadata/core/job_config_builder.py: an overview of one environment and its checklists.
use entsoe_pipeline.Prelude.{
  ◌≡◌, refl, true, false, [], ◌∷◌, text, ◌==◌, upper, insert, lookup, contains,
}
use entsoe_pipeline.Io.Checklist.{extract_active_folders}
use entsoe_pipeline.JobConfig.{Overview, build_extended_domains_config}
use entsoe_pipeline.JobConfig.Readback.{is_active}
use entsoe_pipeline.JobConfig.Extended.{
  is_targeted, lists_enabled, env_roots, build_extended_domains_config_lem,
}
use entsoe_pipeline.Prelude.{◌&&◌, any}

abbrev overview : Overview
overview =
    (
      text "PROD",
      record {
        name = text "TP_export";
        domains =
            (text "Load", text "Load_R3" ∷ text "Peak_R3" ∷ [])
            ∷ (text "Gen", text "Gen_R3" ∷ [])
            ∷ [];
        folders = text "Archive" ∷ text "Old" ∷ [];
      }
          ∷ [],
    )
    ∷ []

build_extended_domains_config_lem_example :
    is_active (text "Load_R3") (
      extract_active_folders
        (text "prod")
        (build_extended_domains_config overview (text "Load" ∷ []) (text "Old" ∷ []) (text "prod")))
    ≡ (is_targeted (text "prod") (text "prod")
        && any
            (lists_enabled (text "Load" ∷ []) (text "Old" ∷ []) (text "Load_R3"))
            (env_roots (text "prod") overview))
build_extended_domains_config_lem_example =
    build_extended_domains_config_lem overview (text "Load" ∷ []) (text "Old" ∷ []) (text "prod")
      (text "prod") (text "Load_R3")

extended_runs :
    (is_active (text "Load_R3") (
        extract_active_folders (text "prod") (
          build_extended_domains_config overview
            (text "Load" ∷ [])
            (text "Old" ∷ [])
            (text "prod")))
      ≡ true)
    × (is_active (text "Archive") (
          extract_active_folders (text "prod") (
            build_extended_domains_config overview
              (text "Load" ∷ [])
              (text "Old" ∷ [])
              (text "prod")))
        ≡ false)
unfolding extract_active_folders build_extended_domains_config ◌==◌ upper insert lookup contains
extended_runs = (refl, refl)
