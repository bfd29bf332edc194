-- ===== src/Landing/Resolved.antt =====
-- The whole schema of crawled folders: where its paths come from, and that the landing job resolves it.
use mathlib.Core.List.{Memᴰ}
use mathlib.Core.Path.{subst}
use entsoe_pipeline.Prelude.{
  ◌≡◌, ◌≢◌, Bool-cases, Option-cases, inl, inr, Option, some, List, [], ◌∷◌, map, Text, ◌==◌, Dict,
  insert, refl, sym, ◌∙◌, ap, All, split, lower, join, All-filter,
}
use entsoe_pipeline.Io.Checklist.{Selection}
use entsoe_pipeline.Io.Schema.{
  TargetMapping, resolve_target_mappings, resolve_path, mapping_of, first_active, head_is,
  push_mapping,
}
use entsoe_pipeline.Io.Schema.Paths.{resolve_target_mappings_lem, is_target}
use entsoe_pipeline.Landing.{
  SchemaRow, FolderRecord, folders_to_insert, unique_folders, build_landing_bucket_schema,
  get_landing_bucket_schema, push_row,
}
use entsoe_pipeline.Landing.Admitted.{
  IsCrawled, path_of, path_parts, schema_row-path_of, schema_row_at,
}

-- The path is that of one of the rows.
abbrev pub IsFrom : List FolderRecord → Text → Type 0
IsFrom rows path =
    (row : FolderRecord) × Memᴰ row rows × (c : IsCrawled row) × (path ≡ path_of row c)

abbrev Rows : List FolderRecord → List (Text × SchemaRow) → Type 0
Rows rows = All (λ (path, _). IsFrom rows path)

later :
    (row : FolderRecord) (rows : List FolderRecord) (d : List (Text × SchemaRow))
    → Rows rows d
    → Rows (row ∷ rows) d
later row rows [] h = tt
later row rows (x ∷ d) ((r, m, c, e), h) = ((r, Memᴰ.tail m, c, e), later row rows d h)

folders_to_insert-Rows :
    (rows : List FolderRecord) → All IsCrawled rows → Rows rows (folders_to_insert rows)
unfolding folders_to_insert
folders_to_insert-Rows [] h = tt
folders_to_insert-Rows (row ∷ rows) h =
    rw (schema_row-path_of row h.0)
      ((row, Memᴰ.head refl, h.0, refl), later row rows _ (folders_to_insert-Rows rows h.1))

insert-Rows :
    (rows : List FolderRecord) (p : Text) (r : SchemaRow) (d : Dict SchemaRow)
    → IsFrom rows p
    → Rows rows d
    → Rows rows (insert p r d)
unfolding insert
insert-Rows rows p r [] h k = (h, tt)
insert-Rows rows p r ((q, w) ∷ d) h k = elim (Bool-cases (q == p)) [
  | inl e ↦ rw e (k.0, k.1)
  | inr e ↦ rw e (k.0, insert-Rows rows p r d h k.1)
]

unique_folders-Rows :
    (rows : List FolderRecord) (d : List (Text × SchemaRow)) (u : Dict SchemaRow)
    → Rows rows d
    → Rows rows u
    → Rows rows (unique_folders d u)
unfolding unique_folders
unique_folders-Rows rows [] u h k = k
unique_folders-Rows rows ((p, r) ∷ d) u h k =
    unique_folders-Rows rows d (insert p r u) h.1 (insert-Rows rows p r u h.0 k)

paths-IsFrom :
    (rows : List FolderRecord) (d : Dict SchemaRow)
    → Rows rows d
    → All (IsFrom rows) (get_landing_bucket_schema d)
unfolding get_landing_bucket_schema
paths-IsFrom rows [] h = tt
paths-IsFrom rows (x ∷ d) h = (h.0, paths-IsFrom rows d h.1)

schema-IsFrom :
    (rows : List FolderRecord) (old : Dict SchemaRow)
    → rows ≢ []
    → All IsCrawled rows
    → All (IsFrom rows) (get_landing_bucket_schema (build_landing_bucket_schema rows old))
unfolding build_landing_bucket_schema folders_to_insert
schema-IsFrom [] old n h = absurd (n refl)
schema-IsFrom (row ∷ rows) old n h =
    let above = folders_to_insert-Rows (row ∷ rows) h in
    rw (schema_row-path_of row h.0) (
      paths-IsFrom (row ∷ rows) _ (
        unique_folders-Rows (row ∷ rows)
          (push_row (some (path_of row h.0, schema_row_at row h.0)) (folders_to_insert rows)) []
          (rw (schema_row-path_of row h.0) at above) tt))

push_mapping-some :
    (path env top : Text) (rel : List Text) (found : Text × Selection)
    (rest : Option (List TargetMapping)) (ms : List TargetMapping)
    → rest ≡ some ms
    → (ns : List TargetMapping) × (push_mapping (mapping_of path (env ∷ top ∷ rel) found) rest
        ≡ some ns)
unfolding mapping_of
push_mapping-some path env top rel (folder, val) rest ms k = (
  record {
    schema_path = path;
    active_folder = folder;
    top_level_folder = top;
    remote_folder_path = join b'/' rel;
    val = val;
  }
      ∷ ms,
  ap (push_mapping (mapping_of path (env ∷ top ∷ rel) (folder, val))) k,
)

-- A path of at least two segments never stops the resolution.
resolve_path-some :
    (env_name : Text) (active : Dict Selection) (path env top : Text) (rel : List Text)
    (rest : Option (List TargetMapping)) (ms : List TargetMapping)
    → split b'/' path ≡ env ∷ top ∷ rel
    → rest ≡ some ms
    → (ns : List TargetMapping) × (resolve_path env_name active path rest ≡ some ns)
unfolding resolve_path
resolve_path-some env_name active path env top rel rest ms e k =
    elim (Bool-cases (head_is env_name (split b'/' path))) [
      | inr away ↦ (ms, rw away k)
      | inl here ↦ elim (Option-cases (first_active active (split b'/' path))) [
        | inl absent ↦ (ms, rw (here, absent) k)
        | inr (found, present) ↦
            let (ns, pushed) = push_mapping-some path env top rel found rest ms k in
            (ns, rw (here, present, e) pushed)
      ]
    ]

resolve-some :
    (rows : List FolderRecord) (env_name : Text) (active : Dict Selection) (paths : List Text)
    → All (IsFrom rows) paths
    → (ms : List TargetMapping) × (resolve_target_mappings env_name active paths ≡ some ms)
unfolding resolve_target_mappings
resolve-some rows env_name active [] h = ([], refl)
resolve-some rows env_name active (path ∷ paths) h =
    let (ms, e) = resolve-some rows env_name active paths h.1 in
    let (row, _, c, p) = h.0 in
    resolve_path-some (lower env_name) active path (lower row.environment) c.root_dir
      (row.domain ∷ c.folder_name ∷ []) (resolve_target_mappings env_name active paths) ms
      (ap (split b'/') p ∙ path_parts row c) e

-- Where every row of `fms_folders` is that of a crawled folder and there is one, the landing job
-- resolves the new schema without an error, for every environment and checklist, and every mapping
-- stands for a path that is built from one of the rows.
pub build_landing_bucket_schema-resolves :
    (rows : List FolderRecord) (old : Dict SchemaRow) (env_name : Text) (active : Dict Selection)
    → rows ≢ []
    → All IsCrawled rows
    → (ms : List TargetMapping) × (resolve_target_mappings env_name active
          (get_landing_bucket_schema (build_landing_bucket_schema rows old))
        ≡ some ms)
      × All (λ m. IsFrom rows m.schema_path) ms
build_landing_bucket_schema-resolves rows old env_name active n h =
    let from = schema-IsFrom rows old n h in
    let (ms, e) =
      resolve-some rows env_name active
        (get_landing_bucket_schema (build_landing_bucket_schema rows old)) from in
    (
      ms,
      e,
      mapped_from ms (
          subst (All (IsFrom rows)) (sym (resolve_target_mappings_lem env_name active _ ms e).0)
            (All-filter (IsFrom rows) (is_target env_name active) _ from)),
    )
  where
    mapped_from :
        (xs : List TargetMapping)
        → All (IsFrom rows) (map (λ m. m.schema_path) xs)
        → All (λ m. IsFrom rows m.schema_path) xs
    mapped_from [] k = tt
    mapped_from (x ∷ xs) k = (k.0, mapped_from xs k.1)
