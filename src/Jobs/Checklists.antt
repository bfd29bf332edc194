-- ===== src/Jobs/Checklists.antt =====
-- What both landing jobs do with the checklist: the environments that have an active folder.
use entsoe_pipeline.Prelude.{Bool, List, [], ◌∷◌, filter, map, Text, Dict}
use entsoe_pipeline.Io.Checklist.{Selection, DomainsConfig, extract_active_folders}

abbrev pub is_not_empty : Dict Selection → Bool
is_not_empty [] = Bool.false
is_not_empty (x ∷ d) = Bool.true

abbrev pub env_or : Text → List Text → List Text
env_or active [] = active ∷ []
env_or active (env ∷ envs) = env ∷ envs

-- The active environment where no environment of the checklist has one
unfoldable pub selected_environments : Text → DomainsConfig → List Text
unfolding extract_active_folders
selected_environments active_environment checklist = env_or active_environment (
    filter (λ env_name. is_not_empty (extract_active_folders env_name checklist))
      (map (λ (env_name, _). env_name) checklist))
