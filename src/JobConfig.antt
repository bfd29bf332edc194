-- ===== src/JobConfig.antt =====
-- src/entsoe_pipeline/fms_metadata/core/job_config_builder.py: the checklist of folders, built from the
-- overview of the FMS and a template.
pub mod Readback
pub mod Extended
use entsoe_pipeline.Prelude.{
  Bool, true, false, ◌&&◌, Option, none, some, List, [], ◌∷◌, ◌++◌, map, Text, ◌==◌, contains,
  lower, upper, Dict, lookup, insert, if◌then◌else◌,
}
use entsoe_pipeline.Io.Checklist.{Selection, disabled, enabled, files, RootDirectory, DomainsConfig}

-- A root directory of the overview. An absent key reads as an empty one.
pub record OverviewRoot : Type 0 where
  pub name : Text
  pub domains : Dict (List Text)
  pub folders : List Text

abbrev pub Overview : Type 0
Overview = Dict (List OverviewRoot)

-- `(target_env is None) or (env_name.upper() == target_env)`; an empty target is none.
unfoldable pub is_env_enabled : Text → Text → Bool
is_env_enabled [] env_name = true
is_env_enabled (c ∷ target) env_name = upper env_name == upper (c ∷ target)

abbrev pub selection : Bool → Selection
selection true = enabled
selection false = disabled

-- `for folder in folders: out[folder] = choose(folder)`
unfoldable pub choose_folders : (Text → Selection) → List Text → Dict Selection → Dict Selection
choose_folders choose [] out = out
choose_folders choose (folder ∷ folders) out =
    choose_folders choose folders (insert folder (choose folder) out)

-- The loop that the three builders share. `in_domain on domain` and `in_root on` choose the value of a
-- folder of a domain and of a folder outside the domains, where `on` tells if the environment is enabled.
unfoldable pub build_root :
    (Bool → Text → Text → Selection)
    → (Bool → Text → Selection)
    → Bool
    → OverviewRoot
    → RootDirectory
unfolding choose_folders
build_root in_domain in_root on root = record {
  name = root.name;
  domains =
      map (λ (domain, folders). (domain, choose_folders (in_domain on domain) folders []))
        root.domains;
  folders = choose_folders (in_root on) root.folders [];
}

unfoldable pub build :
    (Bool → Text → Text → Selection) → (Bool → Text → Selection) → Text → Overview → DomainsConfig
unfolding build_root is_env_enabled
build in_domain in_root target overview =
    map
      (λ (env_name, roots).
        (env_name, map (build_root in_domain in_root (is_env_enabled target env_name)) roots))
      overview

abbrev pub listed_in : Text → Option (List Text) → Bool
listed_in folder none = false
listed_in folder (some folders) = contains folders folder

abbrev pub popular_in : Dict (List Text) → Bool → Text → Text → Selection
popular_in popular_domains on domain folder =
    selection (on && listed_in folder (lookup domain popular_domains))

abbrev pub never : Bool → Text → Selection
never on folder = disabled

unfoldable pub build_default_domains_config : Overview → Dict (List Text) → Text → DomainsConfig
unfolding build
build_default_domains_config overview popular_domains target =
    build (popular_in popular_domains) never target overview

abbrev pub enabled_domain : List Text → Bool → Text → Text → Selection
enabled_domain enabled_domains on domain folder = selection (on && contains enabled_domains domain)

abbrev pub enabled_folder : List Text → Bool → Text → Selection
enabled_folder enabled_legacy_folders on folder =
    selection (on && contains enabled_legacy_folders folder)

unfoldable pub build_extended_domains_config :
    Overview → List Text → List Text → Text → DomainsConfig
unfolding build
build_extended_domains_config overview enabled_domains enabled_legacy_folders target =
    build (enabled_domain enabled_domains) (enabled_folder enabled_legacy_folders) target overview

-- An entry of a domain's list: a folder, or folders with values.
pub data FolderItem : Type 0 where
  folder_named : Text → FolderItem
  folder_values : Dict Selection → FolderItem

-- The value of a selected domain: `True`, a list, or anything else.
pub data DomainValue : Type 0 where
  all_folders no_folders : DomainValue
  these_folders : List FolderItem → DomainValue

pub data DomainItem : Type 0 where
  domain_named : Text → DomainItem
  domain_values : Dict DomainValue → DomainItem

-- `selected_domains`: a dict, or a list of names and dicts.
pub data SelectedDomains : Type 0 where
  selected_dict : Dict DomainValue → SelectedDomains
  selected_list : List DomainItem → SelectedDomains

-- The value of the first key that matches, whatever its case.
unfoldable pub value_of {ℓ} : {V : Type ℓ} → Text → Dict V → Option V
value_of name [] = none
value_of name ((k, v) ∷ rest) =
    let other = value_of name rest in if lower k == lower name then some v else other

abbrev or_value {ℓ} : {V : Type ℓ} → Option V → V → V
or_value none other = other
or_value (some v) other = v

unfoldable pub value_in_list : Text → List DomainItem → DomainValue
unfolding value_of
value_in_list d_name [] = no_folders
value_in_list d_name (domain_named item ∷ items) =
    let rest = value_in_list d_name items in
    if lower item == lower d_name then all_folders else rest
value_in_list d_name (domain_values values ∷ items) =
    or_value (value_of d_name values) (value_in_list d_name items)

unfoldable pub get_domain_config : SelectedDomains → Text → DomainValue
unfolding value_in_list
get_domain_config (selected_dict values) d_name = or_value (value_of d_name values) no_folders
get_domain_config (selected_list items) d_name = value_in_list d_name items

-- A name ends the loop; a dict only its own inner loop, so that later items can still decide.
unfoldable pub folder_config : Text → List FolderItem → Selection → Selection
unfolding value_of
folder_config folder [] current = current
folder_config folder (folder_named item ∷ items) current =
    let rest = folder_config folder items current in
    if lower item == lower folder then enabled else rest
folder_config folder (folder_values values ∷ items) current =
    folder_config folder items (or_value (value_of folder values) current)

abbrev custom_value : DomainValue → Text → Selection
custom_value all_folders folder = enabled
custom_value (these_folders items) folder = folder_config folder items disabled
custom_value no_folders folder = disabled

abbrev pub selected_in : SelectedDomains → Bool → Text → Text → Selection
selected_in selected_domains on domain folder =
    if on then custom_value (get_domain_config selected_domains domain) folder else disabled

unfoldable pub build_custom_domains_config : Overview → SelectedDomains → Text → DomainsConfig
unfolding build get_domain_config folder_config
build_custom_domains_config overview selected_domains target =
    build (selected_in selected_domains) never target overview

-- A template by the first of its keys that the code looks for; a list that is absent is empty.
pub data Template : Type 0 where
  environments : DomainsConfig → Template
  popular_domains : Dict (List Text) → Template
  selected_domains : SelectedDomains → Template
  enabled_lists : List Text → List Text → Template
  invalid : Template

abbrev with_overview : Option Overview → (Overview → DomainsConfig) → Option DomainsConfig
with_overview none build_config = none
with_overview (some overview) build_config = some (build_config overview)

-- `none` is a `ValueError`: no overview where one is needed, or an invalid template.
unfoldable pub build_domains_checklist : Template → Text → Option Overview → Option DomainsConfig
unfolding build_default_domains_config build_custom_domains_config build_extended_domains_config
build_domains_checklist (environments config) target overview = some config
build_domains_checklist (popular_domains popular) target overview =
    with_overview overview (λ o. build_default_domains_config o popular target)
build_domains_checklist (selected_domains selected) target overview =
    with_overview overview (λ o. build_custom_domains_config o selected target)
build_domains_checklist (enabled_lists domains folders) target overview =
    with_overview overview (λ o. build_extended_domains_config o domains folders target)
build_domains_checklist invalid target overview = none
