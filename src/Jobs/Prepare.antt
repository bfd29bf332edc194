-- ===== src/Jobs/Prepare.antt =====
-- jobs/landing/prepare_landing_ingestion.py and
-- src/entsoe_pipeline/fms_metadata/ingestion/my_entsoe_domains.py: the checklist from its template, and
-- the crawls that prepare the landing of what it selects. A domain of the checklist is a dict of
-- folders, as its builders write it.
pub mod Active
pub mod Calls
use entsoe_pipeline.Prelude.{
  Bool, true, false, Option, none, some, List, [], ◌∷◌, ◌++◌, map, filter, Text, text, ◌==◌, Dict,
  insert, if◌then◌else◌,
}
use entsoe_pipeline.Io.Checklist.{
  Selection, disabled, enabled, other_value, files, RootDirectory, DomainsConfig, matching_env,
}
use entsoe_pipeline.JobConfig.{Overview, Template, environments, build_domains_checklist}
use entsoe_pipeline.Jobs.Checklists.{selected_environments}

pub data ActiveMode : Type 0 where
  default_mode custom_mode example_mode : ActiveMode
  unrecognized : ActiveMode

pub data TemplatePath : Type 0 where
  default_template : TemplatePath
  custom_template example_template : Text → TemplatePath

-- A YAML file: empty, or a template.
pub data TemplateFile : Type 0 where
  empty_file : TemplateFile
  template_file : Template → TemplateFile

abbrev pub popular_template : TemplatePath
popular_template = example_template (text "entsoe_popular_domains")

-- `build_domains_checklist` with the overview where the template does not give the environments; an
-- empty template is an invalid one.
abbrev pub template_of : TemplateFile → Template
template_of empty_file = Template.invalid
template_of (template_file template) = template

abbrev pub or_missing : {A : Type 0} → Option A → (A → Option DomainsConfig) → Option DomainsConfig
or_missing none k = none
or_missing (some x) k = k x

-- The overview is read, and has to exist, unless the template has the environments itself.
abbrev pub built_from : Option Overview → Text → Template → Option DomainsConfig
built_from overview target (environments config) =
    build_domains_checklist (environments config) target none
built_from overview target template =
    or_missing overview (λ o. build_domains_checklist template target (some o))

module _ (read : TemplatePath → Option TemplateFile) where
  -- An empty default template gives way to the popular one, if that exists.
  abbrev pub or_popular : TemplateFile → Option TemplateFile → TemplateFile
  or_popular empty_file none = empty_file
  or_popular empty_file (some popular) = popular
  or_popular (template_file template) popular = template_file template

  abbrev pub default_or_popular : Option TemplateFile → Option TemplateFile
  default_or_popular none = elim (read popular_template) [
    | none ↦ none
    | some popular ↦ some (or_popular popular (read popular_template))
  ]
  default_or_popular (some file) = some (or_popular file (read popular_template))

  abbrev pub named_template : (Text → TemplatePath) → Text → Option TemplateFile
  named_template path [] = none
  named_template path (c ∷ name) = read (path (c ∷ name))

  abbrev pub template_for : ActiveMode → Text → Option TemplateFile
  template_for default_mode config_name = default_or_popular (read default_template)
  template_for custom_mode config_name = named_template custom_template config_name
  template_for example_mode config_name = named_template example_template config_name
  template_for unrecognized config_name = none

  -- `none` is an exception: an unknown mode, no name, no template, no overview or an invalid template.
  unfoldable pub generate_my_entsoe_domains :
      ActiveMode → Text → Text → Option Overview → Option DomainsConfig
  unfolding build_domains_checklist
  generate_my_entsoe_domains active_mode config_name target overview =
      or_missing (template_for active_mode config_name)
        (λ file. built_from overview target (template_of file))

-- `val is True or (isinstance(val, list) and len(val) > 0)`
abbrev pub is_selected : Selection → Bool
is_selected disabled = false
is_selected enabled = true
is_selected other_value = false
is_selected (files []) = false
is_selected (files (name ∷ names)) = true

unfoldable pub selected_folders : Dict Selection → List Text
selected_folders [] = []
selected_folders ((folder, val) ∷ folders) =
    let rest = selected_folders folders in if is_selected val then folder ∷ rest else rest

-- A call of a crawler, with the environment and the folders.
pub data Call : Type 0 where
  domain_crawl : Text → Text → List Text → Call
  legacy_crawl : Text → List Text → Call

-- `if folders: active_folders_by_domain[dom_name] = folders`
abbrev pub insert_selected : Text → List Text → Dict (List Text) → Dict (List Text)
insert_selected domain [] by_domain = by_domain
insert_selected domain (folder ∷ folders) by_domain = insert domain (folder ∷ folders) by_domain

unfoldable pub add_selected : Dict (Dict Selection) → Dict (List Text) → Dict (List Text)
unfolding selected_folders
add_selected [] by_domain = by_domain
add_selected ((domain, folders) ∷ domains) by_domain =
    add_selected domains (insert_selected domain (selected_folders folders) by_domain)

-- The domains of the roots named TP_export
unfoldable pub active_folders_by_domain : List RootDirectory → Dict (List Text) → Dict (List Text)
unfolding add_selected
active_folders_by_domain [] by_domain = by_domain
active_folders_by_domain (root ∷ roots) by_domain =
    active_folders_by_domain roots
      (if root.name == text "TP_export" then add_selected root.domains by_domain else by_domain)

-- The folders of the roots named TP_Legacy_Publications
unfoldable pub active_legacy_folders : List RootDirectory → List Text
unfolding selected_folders
active_legacy_folders [] = []
active_legacy_folders (root ∷ roots) =
    (if root.name == text "TP_Legacy_Publications" then selected_folders root.folders else [])
    ++ active_legacy_folders roots

abbrev pub legacy_call : Text → List Text → List Call
legacy_call env [] = []
legacy_call env (folder ∷ folders) = legacy_crawl env (folder ∷ folders) ∷ []

abbrev pub environment_calls : Text → Option (List RootDirectory) → List Call
environment_calls env none = []
environment_calls env (some roots) =
    map (λ (domain, folders). domain_crawl env domain folders) (active_folders_by_domain roots [])
    ++ legacy_call env (active_legacy_folders roots)

unfoldable pub calls_for : DomainsConfig → List Text → List Call
unfolding active_folders_by_domain active_legacy_folders matching_env
calls_for config [] = []
calls_for config (env ∷ envs) =
    environment_calls env (matching_env env config) ++ calls_for config envs

-- The crawls that the job makes, in order, for a checklist.
unfoldable pub prepare_calls : Text → DomainsConfig → List Call
unfolding calls_for selected_environments
prepare_calls active_environment config =
    calls_for config (selected_environments active_environment config)
