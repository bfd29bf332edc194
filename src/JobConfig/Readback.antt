-- ===== src/JobConfig/Readback.antt =====
-- The landing job reads back from a built checklist what the template enables.
use entsoe_pipeline.Prelude.{
  ◌≡◌, refl, sym, ap, ◌∙◌, Bool, true, false, ◌&&◌, ◌||◌, Option, none, some, List, [], ◌∷◌, any,
  map, All, Text, ◌==◌, eq_iff, contains, upper, Dict, lookup, lookup-insert, lookup-nil,
  Bool-cases, Option-cases, inl, inr, insert, arith,
}
use entsoe_pipeline.Io.Checklist.{
  Selection, disabled, enabled, other_value, files, RootDirectory, DomainsConfig, add_active,
  add_folders, add_domains, add_root_dirs, matching_env, extract_active_folders,
}
use entsoe_pipeline.JobConfig.{
  OverviewRoot, Overview, is_env_enabled, choose_folders, build_root, build, popular_in, never,
  build_default_domains_config, SelectedDomains, selected_in, build_custom_domains_config,
}

abbrev pub present : Option Selection → Bool
present none = false
present (some v) = true

abbrev pub is_active : Text → Dict Selection → Bool
is_active folder active = present (lookup folder active)

abbrev pub not_disabled : Selection → Bool
not_disabled disabled = false
not_disabled _ = true

is_active-insert :
    (f k : Text) (v : Selection) (d : Dict Selection)
    → is_active f (insert k v d) ≡ (is_active f d || k == f)
is_active-insert f k v d = ground (arith, lookup-insert k f v d)

is_active-add_active :
    (f k : Text) (v : Selection) (d : Dict Selection)
    → is_active f (add_active k v d) ≡ (is_active f d || (k == f && not_disabled v))
unfolding add_active
is_active-add_active f k disabled d = ground arith
is_active-add_active f k enabled d = ground (arith, is_active-insert f k enabled d)
is_active-add_active f k other_value d = ground (arith, is_active-insert f k other_value d)
is_active-add_active f k (files names) d = ground (arith, is_active-insert f k (files names) d)

abbrev pub holds : Text → Dict Selection → Bool
holds f = any (λ (k, v). k == f && not_disabled v)

is_active-add_folders :
    (f : Text) (fs d : Dict Selection)
    → is_active f (add_folders fs d) ≡ (is_active f d || holds f fs)
unfolding add_folders
is_active-add_folders f [] d = ground arith
is_active-add_folders f ((k, v) ∷ fs) d =
    ground (arith, is_active-add_folders f fs (add_active k v d), is_active-add_active f k v d)

is_active-add_domains :
    (f : Text) (ds : Dict (Dict Selection)) (d : Dict Selection)
    → is_active f (add_domains ds d) ≡ (is_active f d || any (λ (_, fs). holds f fs) ds)
unfolding add_domains
is_active-add_domains f [] d = ground arith
is_active-add_domains f ((k, fs) ∷ ds) d =
    ground (arith, is_active-add_domains f ds (add_folders fs d), is_active-add_folders f fs d)

abbrev pub root_holds : Text → RootDirectory → Bool
root_holds f root = any (λ (_, fs). holds f fs) root.domains || holds f root.folders

is_active-add_root_dirs :
    (f : Text) (roots : List RootDirectory) (d : Dict Selection)
    → is_active f (add_root_dirs roots d) ≡ (is_active f d || any (root_holds f) roots)
unfolding add_root_dirs
is_active-add_root_dirs f [] d = ground arith
is_active-add_root_dirs f (root ∷ roots) d = ground (
  arith,
  is_active-add_root_dirs f roots (add_folders root.folders (add_domains root.domains d)),
  is_active-add_folders f root.folders (add_domains root.domains d),
  is_active-add_domains f root.domains d,
)

abbrev pub built_active : Text → Option (List RootDirectory) → Bool
built_active f none = false
built_active f (some roots) = any (root_holds f) roots

pub extract-built_active :
    (env f : Text) (config : DomainsConfig)
    → is_active f (extract_active_folders env config) ≡ built_active f (matching_env env config)
unfolding extract_active_folders
extract-built_active env f config = elim (Option-cases (matching_env env config)) [
  | inl e ↦ rw (e, extract_active_folders, lookup-nil {V = Selection} f) refl
  | inr (roots, e) ↦
      rw (e, extract_active_folders)
        (is_active-add_root_dirs f roots [] ∙ rw (lookup-nil {V = Selection} f) refl)
]

-- The dicts that `choose_folders` builds.
module _ (choose : Text → Selection) where
  abbrev IsChosen : Dict Selection → Type 0
  IsChosen = All (λ (k, v). v ≡ choose k)

  abbrev has_key : Text → Dict Selection → Bool
  has_key f = any (λ (k, _). k == f)

  insert-IsChosen :
      (k : Text) (out : Dict Selection) → IsChosen out → IsChosen (insert k (choose k) out)
  unfolding insert
  insert-IsChosen k [] h = (refl, tt)
  insert-IsChosen k ((j, v) ∷ out) h = elim (Bool-cases (j == k)) [
    | inl e ↦ rw (e, insert) (ap choose (sym ((eq_iff j k).0 e)), h.1)
    | inr e ↦ rw (e, insert) (h.0, insert-IsChosen k out h.1)
  ]

  has_key-insert :
      (f k : Text) (v : Selection) (out : Dict Selection)
      → has_key f (insert k v out) ≡ (k == f || has_key f out)
  unfolding insert
  has_key-insert f k v [] = refl
  has_key-insert f k v ((j, w) ∷ out) = ground (arith, has_key-insert f k v out, eq_iff j k)

  holds-IsChosen :
      (f : Text) (out : Dict Selection)
      → IsChosen out
      → holds f out ≡ (has_key f out && not_disabled (choose f))
  holds-IsChosen f [] h = refl
  holds-IsChosen f ((k, v) ∷ out) h = ground (arith, holds-IsChosen f out h.1, h.0, eq_iff k f)

  holds-choose_folders :
      (f : Text) (fs : List Text) (out : Dict Selection)
      → IsChosen out
      → holds f (choose_folders choose fs out)
        ≡ ((has_key f out || contains fs f) && not_disabled (choose f))
  unfolding choose_folders contains
  holds-choose_folders f [] out h = ground (arith, holds-IsChosen f out h)
  holds-choose_folders f (g ∷ fs) out h = ground (
    arith,
    holds-choose_folders f fs (insert g (choose g) out) (insert-IsChosen g out h),
    has_key-insert f g (choose g) out,
  )

module _ (in_domain : Bool → Text → Text → Selection) (in_root : Bool → Text → Selection) where
  -- The root directory lists the folder, in a domain or outside, with a value that is not `False`.
  abbrev pub offers : Bool → Text → OverviewRoot → Bool
  offers on f root =
      any (λ (d, fs). contains fs f && not_disabled (in_domain on d f)) root.domains
      || (contains root.folders f && not_disabled (in_root on f))

  domains_hold :
      (on : Bool) (f : Text) (ds : Dict (List Text))
      → any (λ (_, fs). holds f fs) (map (λ (d, fs). (d, choose_folders (in_domain on d) fs [])) ds)
        ≡ any (λ (d, fs). contains fs f && not_disabled (in_domain on d f)) ds
  domains_hold on f [] = refl
  domains_hold on f ((d, fs) ∷ ds) =
      ground (arith, domains_hold on f ds, holds-choose_folders (in_domain on d) f fs [] tt)

  root_holds-build_root :
      (on : Bool) (f : Text) (root : OverviewRoot)
      → root_holds f (build_root in_domain in_root on root) ≡ offers on f root
  unfolding build_root
  root_holds-build_root on f root = ground (
    arith,
    domains_hold on f root.domains,
    holds-choose_folders (in_root on) f root.folders [] tt,
  )

  roots_hold :
      (on : Bool) (f : Text) (roots : List OverviewRoot)
      → any (root_holds f) (map (build_root in_domain in_root on) roots) ≡ any (offers on f) roots
  roots_hold on f [] = refl
  roots_hold on f (root ∷ roots) =
      ground (arith, root_holds-build_root on f root, roots_hold on f roots)

  is_env_enabled_same :
      (target k env : Text)
      → upper k ≡ upper env
      → is_env_enabled target k ≡ is_env_enabled target env
  unfolding is_env_enabled
  is_env_enabled_same [] k env e = refl
  is_env_enabled_same (c ∷ target) k env e = ap (λ u. u == upper (c ∷ target)) e

  abbrev pub offered : Bool → Text → Option (List OverviewRoot) → Bool
  offered on f none = false
  offered on f (some roots) = any (offers on f) roots

  matching-build :
      (target env f : Text) (overview : Overview)
      → built_active f (matching_env env (build in_domain in_root target overview))
        ≡ offered (is_env_enabled target env) f (matching_env env overview)
  unfolding build matching_env
  matching-build target env f [] = refl
  matching-build target env f ((k, roots) ∷ overview) = elim (Bool-cases (upper k == upper env)) [
    | inl e ↦ elim (Bool-cases (k == [])) [
      | inl n ↦ rw (e, n, matching_env) refl
      | inr n ↦
          rw
            (
              e,
              n,
              matching_env,
              is_env_enabled_same target k env ((eq_iff (upper k) (upper env)).0 e),
            )
            (roots_hold (is_env_enabled target env) f roots)
    ]
    | inr e ↦ rw (e, matching_env) (matching-build target env f overview)
  ]

  pub extract-build :
      (target env f : Text) (overview : Overview)
      → is_active f (extract_active_folders env (build in_domain in_root target overview))
        ≡ offered (is_env_enabled target env) f (matching_env env overview)
  extract-build target env f overview =
      extract-built_active env f (build in_domain in_root target overview)
      ∙ matching-build target env f overview

-- What the landing job reads back from the default checklist: a folder is active exactly when the
-- overview lists it for the environment in a domain for which it is popular, and the template has no
-- other target environment. A folder outside the domains never is.
pub build_default_domains_config_lem :
    (overview : Overview) (popular : Dict (List Text)) (target env f : Text)
    → is_active f
        (extract_active_folders env (build_default_domains_config overview popular target))
      ≡ offered (popular_in popular) never (is_env_enabled target env) f (matching_env env overview)
unfolding build_default_domains_config
build_default_domains_config_lem overview popular target env f =
    extract-build (popular_in popular) never target env f overview

-- What the landing job reads back from the custom checklist: a folder is active exactly when the
-- overview lists it for the environment in a domain whose selection gives it a value other than
-- `False`, and the template has no other target environment.
pub build_custom_domains_config_lem :
    (overview : Overview) (selected : SelectedDomains) (target env f : Text)
    → is_active f
        (extract_active_folders env (build_custom_domains_config overview selected target))
      ≡ offered
          (selected_in selected)
          never
          (is_env_enabled target env)
          f
          (matching_env env overview)
unfolding build_custom_domains_config
build_custom_domains_config_lem overview selected target env f =
    extract-build (selected_in selected) never target env f overview
