-- ===== src/Landing/Schema.antt =====
-- The table as a dictionary of the last row for each path.
use entsoe_pipeline.Prelude.{
  ◌≡◌, ◌≢◌, ◌≤◌, ℕ, max, Option, none, some, List, [], ◌∷◌, filter, length, Text, ◌==◌, eq_iff,
  Dict, lookup, lookup-insert, insert, if◌then◌else◌, arith, refl, ◌∙◌, ap,
}
use entsoe_pipeline.Landing.{
  SchemaRow, FolderRecord, folders_to_insert, unique_folders, build_landing_bucket_schema,
  get_landing_bucket_schema, replace_rows,
}

-- `rows` read from its end, and `other` where no row has the path
abbrev pub last_row : Text → Option SchemaRow → List (Text × SchemaRow) → Option SchemaRow
last_row path other [] = other
last_row path other ((p, row) ∷ rows) = last_row path (if p == path then some row else other) rows

abbrev pub copies : Text → List Text → ℕ
copies path paths = length (filter (λ p. p == path) paths)

unique_folders-lookup :
    (path : Text) (rows : List (Text × SchemaRow)) (unique : Dict SchemaRow)
    → lookup path (unique_folders rows unique) ≡ last_row path (lookup path unique) rows
unfolding unique_folders
unique_folders-lookup path [] unique = refl
unique_folders-lookup path ((p, row) ∷ rows) unique =
    unique_folders-lookup path rows (insert p row unique)
    ∙ ap (λ o. last_row path o rows) (lookup-insert p path row unique)

-- Every path stands in the dictionary at most once.
abbrev Once : Text → Dict SchemaRow → Type 0
Once path d = copies path (get_landing_bucket_schema d) ≤ 1

copies-insert :
    (path p : Text) (row : SchemaRow) (d : Dict SchemaRow)
    → copies path (get_landing_bucket_schema (insert p row d)) ≡ (
        if p == path
        then max 1 (copies path (get_landing_bucket_schema d))
        else copies path (get_landing_bucket_schema d))
unfolding get_landing_bucket_schema insert
copies-insert path p row [] = ground arith
copies-insert path p row ((q, r) ∷ d) =
    ground (arith, copies-insert path p row d, eq_iff q p, eq_iff p path, eq_iff q path)

unique_folders-Once :
    (path : Text) (rows : List (Text × SchemaRow)) (unique : Dict SchemaRow)
    → Once path unique
    → Once path (unique_folders rows unique)
unfolding unique_folders
unique_folders-Once path [] unique h = h
unique_folders-Once path ((p, row) ∷ rows) unique h =
    unique_folders-Once path rows (insert p row unique)
      (ground (arith, copies-insert path p row unique, h))

replaced :
    (path : Text) (rows : List (Text × SchemaRow)) (old : Dict SchemaRow)
    → rows ≢ []
    → (lookup path (replace_rows rows old) ≡ last_row path none rows)
      × (copies path (get_landing_bucket_schema (replace_rows rows old)) ≤ 1)
unfolding lookup get_landing_bucket_schema
replaced path [] old h = absurd (h refl)
replaced path (r ∷ rows) old h =
    (unique_folders-lookup path (r ∷ rows) [], unique_folders-Once path (r ∷ rows) [] (omega arith))

-- Where some row of `fms_folders` has a path of two parts, the new table has, for every path, the
-- last row that is built for it and no row of the old table, and lists the path at most once.
pub build_landing_bucket_schema_lem :
    (rows : List FolderRecord) (old : Dict SchemaRow) (path : Text)
    → folders_to_insert rows ≢ []
    → (lookup path (build_landing_bucket_schema rows old)
        ≡ last_row path none (folders_to_insert rows))
      × (copies path (get_landing_bucket_schema (build_landing_bucket_schema rows old)) ≤ 1)
unfolding build_landing_bucket_schema
build_landing_bucket_schema_lem rows old path h = replaced path (folders_to_insert rows) old h
