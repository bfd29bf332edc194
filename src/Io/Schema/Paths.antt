-- ===== src/Io/Schema/Paths.antt =====
-- Which schema paths are resolved, and to what.
use mathlib.Core.Option.{some-injective}
use mathlib.Core.Path.{subst, ap₂}
use entsoe_pipeline.Prelude.{
  ◌≡◌, refl, ap, ◌∙◌, ◌⊎◌, Bool, true, false, ◌&&◌, Option, none, some, List, [], ◌∷◌, map, Text,
  eq_iff, contains, lower, split, join, Dict, filter, any, All, Bool-cases, Option-cases, inl, inr,
  arith,
}
use entsoe_pipeline.Io.Checklist.{Selection}
use entsoe_pipeline.Io.Schema.{
  TargetMapping, first_active, mapping_of, head_is, push_mapping, resolve_path,
  resolve_target_mappings,
}

-- The path lies under the environment and names an active folder.
abbrev pub is_target : Text → Dict Selection → Text → Bool
is_target env_name active path =
    head_is (lower env_name) (split b'/' path)
    && any (λ (folder, _). contains (split b'/' path) folder) active

-- The mapping splits its schema path into the environment, the top level and the remote folder,
-- and its active folder is one of the segments.
pub record IsResolved (env_name : Text) (m : TargetMapping) : Type 0 where
  pub rel : List Text
  pub segments : split b'/' m.schema_path ≡ lower env_name ∷ m.top_level_folder ∷ rel
  pub remote : m.remote_folder_path ≡ join b'/' rel
  pub active : contains (split b'/' m.schema_path) m.active_folder ≡ true

first_active-contains :
    (active : Dict Selection) (segments : List Text) (folder : Text) (val : Selection)
    → first_active active segments ≡ some (folder, val)
    → contains segments folder ≡ true
unfolding first_active
first_active-contains [] segments folder val h = cc
first_active-contains ((j, v) ∷ rest) segments folder val h =
    ground (arith, first_active-contains rest segments folder val)

first_active-any :
    (active : Dict Selection) (segments : List Text)
    → any (λ (folder, _). contains segments folder) active
      ≡ elim (first_active active segments) [ none ↦ false | some _ ↦ true ]
unfolding first_active
first_active-any [] segments = refl
first_active-any ((j, v) ∷ rest) segments = ground (arith, first_active-any rest segments)

mapping_of-IsResolved :
    (env_name path folder : Text) (val : Selection) (segments : List Text) (m : TargetMapping)
    → split b'/' path ≡ segments
    → head_is (lower env_name) segments ≡ true
    → contains segments folder ≡ true
    → mapping_of path segments (folder, val) ≡ some m
    → IsResolved env_name m × (m.schema_path ≡ path)
unfolding mapping_of
mapping_of-IsResolved env_name path folder val [] m s e c h = cc
mapping_of-IsResolved env_name path folder val (_ ∷ []) m s e c h = cc
mapping_of-IsResolved env_name path folder val (env ∷ top ∷ rel) m s e c h =
    subst (λ n. IsResolved env_name n × (n.schema_path ≡ path)) (some-injective _ _ h)
      (
        record {
          rel = rel;
          segments = s ∙ ap (λ x. x ∷ top ∷ rel) ((eq_iff env (lower env_name)).0 e);
          remote = refl;
          active = ap (λ x. contains x folder) s ∙ c;
        },
        refl,
      )

push_mapping-eq_some :
    (o : Option TargetMapping) (rest : Option (List TargetMapping)) (ms : List TargetMapping)
    → push_mapping o rest ≡ some ms
    → (m : TargetMapping) × (ns : List TargetMapping) × (o ≡ some m)
      × (rest ≡ some ns)
      × (m ∷ ns ≡ ms)
push_mapping-eq_some none rest ms h = absurd (cc)
push_mapping-eq_some (some m) none ms h = absurd (cc)
push_mapping-eq_some (some m) (some ns) ms h = (m, ns, refl, refl, some-injective _ _ h)

-- What one path adds in front of the rest.
abbrev Added :
    Text → Dict Selection → Text → Option (List TargetMapping) → List TargetMapping → Type 0
Added env_name active path rest ms =
    ((is_target env_name active path ≡ false) × (rest ≡ some ms))
    ⊎ ((is_target env_name active path ≡ true)
        × ((m : TargetMapping) × (ns : List TargetMapping) × (IsResolved env_name m
              × (m.schema_path ≡ path))
            × (rest ≡ some ns)
            × (m ∷ ns ≡ ms)))

resolve_path-Added :
    (env_name : Text) (active : Dict Selection) (path : Text) (rest : Option (List TargetMapping))
    (ms : List TargetMapping)
    → resolve_path (lower env_name) active path rest ≡ some ms
    → Added env_name active path rest ms
unfolding resolve_path
resolve_path-Added env_name active path rest ms h =
    elim (Bool-cases (head_is (lower env_name) (split b'/' path))) [
      | inl here ↦ elim (Option-cases (first_active active (split b'/' path))) [
        | inl e ↦ inl (
          rw (here, first_active-any active (split b'/' path), e),
          rw (here, e, resolve_path) at h,
        )
        | inr ((folder, val), e) ↦
            let parts =
              push_mapping-eq_some (mapping_of path (split b'/' path) (folder, val)) rest ms
                (rw (here, e, resolve_path) at h) in
            inr (
              rw (here, first_active-any active (split b'/' path), e),
              (
                parts.0,
                parts.1,
                mapping_of-IsResolved env_name path folder val (split b'/' path) parts.0 refl here
                    (first_active-contains active (split b'/' path) folder val e) parts.2,
                parts.3,
                parts.4,
              ),
            )
      ]
      | inr away ↦ inl (rw away, rw (away, resolve_path) at h)
    ]

-- Where the resolution returns, its mappings are those of exactly the schema paths that lie under
-- the environment and have an active folder among their segments, in the schema's order and one to
-- a path; and each splits its path into environment, top level, remote folder and active folder.
pub resolve_target_mappings_lem :
    (env_name : Text) (active : Dict Selection) (schema : List Text) (ms : List TargetMapping)
    → resolve_target_mappings env_name active schema ≡ some ms
    → (map (λ m. m.schema_path) ms ≡ filter (is_target env_name active) schema)
      × All (IsResolved env_name) ms
unfolding resolve_target_mappings
resolve_target_mappings_lem env_name active [] ms h =
    subst (λ xs. (map (λ m. m.schema_path) xs ≡ []) × All (IsResolved env_name) xs)
      (some-injective [] ms h) (refl, tt)
resolve_target_mappings_lem env_name active (path ∷ paths) ms h =
    joined
      (resolve_path-Added env_name active path (resolve_target_mappings env_name active paths) ms h)
      (resolve_target_mappings_lem env_name active paths)
  where
    joined :
        Added env_name active path (resolve_target_mappings env_name active paths) ms
        → ((ns : List TargetMapping)
            → resolve_target_mappings env_name active paths ≡ some ns
            → (map (λ m. m.schema_path) ns ≡ filter (is_target env_name active) paths)
              × All (IsResolved env_name) ns)
        → (map (λ m. m.schema_path) ms ≡ filter (is_target env_name active) (path ∷ paths))
          × All (IsResolved env_name) ms
    joined (inl (off, e)) ih = (rw off (ih ms e).0, (ih ms e).1)
    joined (inr (on, (m, ns, good, e, whole))) ih =
        subst
          (λ xs.
            (map (λ m. m.schema_path) xs ≡ filter (is_target env_name active) (path ∷ paths))
            × All (IsResolved env_name) xs)
          whole (rw on (ap₂ ◌∷◌ good.1 (ih ns e).0), (good.0, (ih ns e).1))
