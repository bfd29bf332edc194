-- ===== src/Jobs/Prepare/Calls.antt =====
-- Every folder of a crawl that the job makes is active in the environment of the crawl.
use entsoe_pipeline.Prelude.{
  ◌≡◌, refl, ◌∙◌, true, Option, none, some, List, [], ◌∷◌, map, any, All, All-append, Text, Dict,
}
use entsoe_pipeline.Io.Checklist.{
  RootDirectory, DomainsConfig, matching_env, extract_active_folders,
}
use entsoe_pipeline.JobConfig.Readback.{is_active, root_holds, extract-built_active}
use entsoe_pipeline.Jobs.Checklists.{selected_environments}
use entsoe_pipeline.Jobs.Prepare.{
  Call, domain_crawl, legacy_crawl, active_folders_by_domain, active_legacy_folders, legacy_call,
  environment_calls, calls_for, prepare_calls,
}
use entsoe_pipeline.Jobs.Prepare.Active.{
  Groups, active_folders_by_domain-Groups, active_legacy_folders-All,
}

-- The folder is one that the landing job synchronises in the environment.
abbrev pub ActiveIn : DomainsConfig → Text → Text → Type 0
ActiveIn config env f = is_active f (extract_active_folders env config) ≡ true

abbrev pub IsActiveCall : DomainsConfig → Call → Type 0
IsActiveCall config (domain_crawl env domain folders) = All (ActiveIn config env) folders
IsActiveCall config (legacy_crawl env folders) = All (ActiveIn config env) folders

module _ (config : DomainsConfig) where
  domain_crawls-active :
      (env : Text) (d : Dict (List Text))
      → Groups (ActiveIn config env) d
      → All (IsActiveCall config) (map (λ (domain, folders). domain_crawl env domain folders) d)
  domain_crawls-active env [] h = tt
  domain_crawls-active env (x ∷ d) h = (h.0, domain_crawls-active env d h.1)

  legacy_call-active :
      (env : Text) (folders : List Text)
      → All (ActiveIn config env) folders
      → All (IsActiveCall config) (legacy_call env folders)
  legacy_call-active env [] h = tt
  legacy_call-active env (f ∷ fs) h = (h, tt)

  environment_calls-active :
      (env : Text) (o : Option (List RootDirectory))
      → matching_env env config ≡ o
      → All (IsActiveCall config) (environment_calls env o)
  environment_calls-active env none e = tt
  environment_calls-active env (some roots) e =
      let active : (f : Text) → any (root_holds f) roots ≡ true → ActiveIn config env f =
        λ f h. extract-built_active env f config ∙ rw e h in
      All-append (IsActiveCall config) _ (legacy_call env (active_legacy_folders roots))
        (domain_crawls-active env (active_folders_by_domain roots [])
          (active_folders_by_domain-Groups (ActiveIn config env) roots [] active tt))
        (legacy_call-active env (active_legacy_folders roots)
          (active_legacy_folders-All (ActiveIn config env) roots active))

  calls_for-active : (envs : List Text) → All (IsActiveCall config) (calls_for config envs)
  unfolding calls_for
  calls_for-active [] = tt
  calls_for-active (env ∷ envs) =
      All-append (IsActiveCall config) (environment_calls env (matching_env env config))
        (calls_for config envs) (environment_calls-active env (matching_env env config) refl)
        (calls_for-active envs)

-- For every checklist, each crawl that the preparation makes is for folders that the landing job
-- synchronises in the environment of the crawl.
pub prepare_calls-IsActiveCall :
    (active_environment : Text) (config : DomainsConfig)
    → All (IsActiveCall config) (prepare_calls active_environment config)
unfolding prepare_calls
prepare_calls-IsActiveCall active_environment config =
    calls_for-active config (selected_environments active_environment config)
