-- ===== src/JobConfig/Extended.antt =====
-- The landing job reads back from the extended checklist what the template enables.
use entsoe_pipeline.Prelude.{
  ◌≡◌, refl, ap, ◌∙◌, Bool, ◌&&◌, ◌||◌, Option, none, some, List, [], ◌∷◌, any, Text, ◌==◌, eq_iff,
  contains, upper, Dict, Bool-cases, inl, inr, find?, if◌then◌else◌, arith,
}
use entsoe_pipeline.Io.Checklist.{matching_env, extract_active_folders}
use entsoe_pipeline.JobConfig.{
  OverviewRoot, Overview, is_env_enabled, enabled_domain, enabled_folder,
  build_extended_domains_config,
}
use entsoe_pipeline.JobConfig.Readback.{is_active, not_disabled, offers, offered, extract-build}

-- The template has no target environment, or has this one, whatever its case.
abbrev pub is_targeted : Text → Text → Bool
is_targeted target env = target == [] || upper target == upper env

abbrev roots_of : Option (Text × List OverviewRoot) → List OverviewRoot
roots_of none = []
roots_of (some (k, roots)) = if k == [] then [] else roots

-- The root directories of the first environment of the overview with this name, whatever its case
abbrev pub env_roots : Text → Overview → List OverviewRoot
env_roots env overview = roots_of (find? (λ (k, roots). upper k == upper env) overview)

-- The root directory lists the folder, in one of these domains or, outside the domains, as one of these
-- folders.
abbrev pub lists_enabled : List Text → List Text → Text → OverviewRoot → Bool
lists_enabled domains folders f root =
    any (λ (d, fs). contains domains d && contains fs f) root.domains
    || (contains folders f && contains root.folders f)

is_targeted_same : (target env : Text) → is_env_enabled target env ≡ is_targeted target env
unfolding is_env_enabled ◌==◌
is_targeted_same [] env = refl
is_targeted_same (c ∷ target) env =
    ground (arith, eq_iff (upper env) (upper (c ∷ target)), eq_iff (upper (c ∷ target)) (upper env))

module _ (domains folders : List Text) (on : Bool) (f : Text) where
  abbrev offers_enabled : OverviewRoot → Bool
  offers_enabled = offers (enabled_domain domains) (enabled_folder folders) on f

  domains-enabled :
      (ds : Dict (List Text))
      → any (λ (d, fs). contains fs f && not_disabled (enabled_domain domains on d f)) ds
        ≡ (on && any (λ (d, fs). contains domains d && contains fs f) ds)
  domains-enabled [] = ground arith
  domains-enabled ((d, fs) ∷ ds) = ground (arith, domains-enabled ds)

  offers-enabled :
      (root : OverviewRoot) → offers_enabled root ≡ (on && lists_enabled domains folders f root)
  offers-enabled root = ground (arith, domains-enabled root.domains)

  roots-enabled :
      (roots : List OverviewRoot)
      → any offers_enabled roots ≡ (on && any (lists_enabled domains folders f) roots)
  roots-enabled [] = ground arith
  roots-enabled (root ∷ roots) = ground (arith, offers-enabled root, roots-enabled roots)

  offered-env_roots :
      (env : Text) (overview : Overview)
      → offered (enabled_domain domains) (enabled_folder folders) on f (matching_env env overview)
        ≡ any offers_enabled (env_roots env overview)
  unfolding matching_env
  offered-env_roots env [] = refl
  offered-env_roots env ((k, roots) ∷ overview) = elim (Bool-cases (upper k == upper env)) [
    | inl e ↦ elim (Bool-cases (k == [])) [ inl n ↦ rw (e, n) refl | inr n ↦ rw (e, n) refl ]
    | inr e ↦ rw e (offered-env_roots env overview)
  ]

-- What the landing job reads back from the extended checklist: a folder is active exactly when the
-- template has no target environment or has this one, and the overview lists the folder for the
-- environment, in an enabled domain or, outside the domains, as an enabled legacy folder. The names of
-- environments are matched whatever their case.
pub build_extended_domains_config_lem :
    (overview : Overview) (domains folders : List Text) (target env f : Text)
    → is_active f
        (extract_active_folders env (build_extended_domains_config overview domains folders target))
      ≡ (is_targeted target env && any (lists_enabled domains folders f) (env_roots env overview))
unfolding build_extended_domains_config
build_extended_domains_config_lem overview domains folders target env f =
    extract-build (enabled_domain domains) (enabled_folder folders) target env f overview
    ∙ offered-env_roots domains folders (is_env_enabled target env) f env overview
    ∙ roots-enabled domains folders (is_env_enabled target env) f (env_roots env overview)
    ∙ ap (λ on. on && any (lists_enabled domains folders f) (env_roots env overview))
        (is_targeted_same target env)
