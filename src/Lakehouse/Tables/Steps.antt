-- ===== src/Lakehouse/Tables/Steps.antt =====
-- What the steps of add_csv_to_iceberg_table do to the catalog, in the code's own terms.
use entsoe_pipeline.Prelude.{
  ◌≡◌, refl, sym, ap, ◌∙◌, false, Option, none, some, List, [], ◌∷◌, ◌++◌, Text, lookup, insert,
  Dict, contains, nat_eq, filter, not, ◌==◌, eq_refl, if◌then◌else◌, Bool-cases, Option-cases, inl,
  inr, ℕ, nat_eq, arith,
}
use entsoe_pipeline.Lakehouse.Contracts.{FmsPublicationSchema}
use entsoe_pipeline.Lakehouse.Reader.{Column}
use entsoe_pipeline.Lakehouse.Tables.{
  Spark, LakehouseParquetCodecConfig, Catalog, SparkRun, wrote, raised_error, Table, Write,
  append_write, merge_write, join_conditions, write_props_for, table_name_of, num_files_for,
  keys_of, add_csv_to_iceberg_table, merge_dataframe_into_table, write_frame,
  ensure_iceberg_table_exists, create_table, then_run,
}

module _ (spark : Spark) (config : LakehouseParquetCodecConfig)
    (publications : Dict FmsPublicationSchema) (columns : List Column) (fms_name : Text)
    (raw : ℕ) where
  abbrev pub name : Text
  name = table_name_of spark config fms_name

  abbrev pub business_keys : List Text
  business_keys = keys_of spark config (lookup fms_name publications)

  abbrev pub files : ℕ
  files = num_files_for spark config (write_props_for config fms_name).target_parquet_size_bytes raw

  -- The tables, once that of the publication stands
  abbrev pub with_table : Option Table → Dict Table → Dict Table
  with_table (some table) tables = tables
  with_table none tables =
      insert name
        (record {
          columns = columns;
          identifier_fields = business_keys;
          properties = write_props_for config fms_name;
        })
        tables

  abbrev pub write_of : List Text → Write
  write_of [] = append_write name files
  write_of (key ∷ keys) = merge_write name (join_conditions spark config (key ∷ keys)) files

  abbrev pub CodeOutcome : Catalog → SparkRun → Type 0
  CodeOutcome c (wrote d) =
      (d.tables ≡ with_table (lookup name c.tables) c.tables)
      × (d.writes ≡ c.writes ++ (write_of business_keys ∷ []))
      × (d.temp_views ≡ c.temp_views)
      × (nat_eq (write_props_for config fms_name).target_parquet_size_bytes 0 ≡ false)
  CodeOutcome c (raised_error d) = (d.writes ≡ c.writes) × (d.temp_views ≡ c.temp_views)

  drop_fresh :
      (views : List Text)
      → contains views spark.view_name ≡ false
      → filter (λ v. not (v == spark.view_name)) views ≡ views
  unfolding contains
  drop_fresh [] h = refl
  drop_fresh (v ∷ views) h = ground (arith, drop_fresh views, h)

  drop_added :
      (views : List Text)
      → contains views spark.view_name ≡ false
      → filter (λ v. not (v == spark.view_name)) (spark.view_name ∷ views) ≡ views
  drop_added views h = rw (eq_refl spark.view_name) (drop_fresh views h)

  abbrev Written : List Text → Catalog → SparkRun → Type 0
  Written keys c (wrote d) =
      (d.tables ≡ c.tables)
      × (d.writes ≡ c.writes ++ (write_of keys ∷ []))
      × (d.temp_views ≡ c.temp_views)
  Written keys c (raised_error d) =
      (d.tables ≡ c.tables) × (d.writes ≡ c.writes) × (d.temp_views ≡ c.temp_views)

  write_frame-Written :
      (keys : List Text) (c : Catalog)
      → contains c.temp_views spark.view_name ≡ false
      → Written keys c (write_frame spark config name keys files c)
  unfolding merge_dataframe_into_table
  write_frame-Written [] c h = elim (Bool-cases (spark.writes name)) [
    | inl e ↦ rw e (refl, refl, refl)
    | inr e ↦ rw e (refl, refl, refl)
  ]
  write_frame-Written (key ∷ keys) c h = elim (Bool-cases (spark.writes name)) [
    | inl e ↦ rw e (refl, refl, drop_added c.temp_views h)
    | inr e ↦ rw e (refl, refl, drop_added c.temp_views h)
  ]

  -- `created` is `c` with the table of the publication.
  abbrev Stands : Catalog → Catalog → Type 0
  Stands c created =
      (created.tables ≡ with_table (lookup name c.tables) c.tables)
      × (created.writes ≡ c.writes)
      × (created.temp_views ≡ c.temp_views)

  Written-Outcome :
      (c created : Catalog) (run : SparkRun)
      → Stands c created
      → nat_eq (write_props_for config fms_name).target_parquet_size_bytes 0 ≡ false
      → Written business_keys created run
      → CodeOutcome c run
  Written-Outcome c created (wrote d) h e k =
      (k.0 ∙ h.0, k.1 ∙ ap (λ ws. ws ++ (write_of business_keys ∷ [])) h.1, k.2 ∙ h.2, e)
  Written-Outcome c created (raised_error d) h e k = (k.1 ∙ h.1, k.2 ∙ h.2)

  abbrev finish : Catalog → SparkRun
  finish created =
      if nat_eq (write_props_for config fms_name).target_parquet_size_bytes 0
      then raised_error created
      else write_frame spark config name business_keys files created

  finish-Outcome :
      (c created : Catalog)
      → Stands c created
      → contains c.temp_views spark.view_name ≡ false
      → CodeOutcome c (finish created)
  finish-Outcome c created s h =
      elim (Bool-cases (nat_eq (write_props_for config fms_name).target_parquet_size_bytes 0)) [
        | inl e ↦ rw e (s.1, s.2)
        | inr e ↦ rw e (
            Written-Outcome c created (write_frame spark config name business_keys files created) s
              e
              (write_frame-Written business_keys created
                (ap (λ vs. contains vs spark.view_name) s.2 ∙ h)))
      ]

  abbrev Ensured : Catalog → SparkRun → Type 0
  Ensured c (wrote d) = Stands c d
  Ensured c (raised_error d) = (d.writes ≡ c.writes) × (d.temp_views ≡ c.temp_views)

  Ensured-Outcome :
      (c : Catalog) (run : SparkRun)
      → Ensured c run
      → contains c.temp_views spark.view_name ≡ false
      → CodeOutcome c (then_run spark config run finish)
  Ensured-Outcome c (wrote created) e h = finish-Outcome c created e h
  Ensured-Outcome c (raised_error d) e h = e

  create_table-Ensured :
      (cols : List Column) (c : Catalog)
      → lookup name c.tables ≡ none
      → cols ≡ columns
      → Ensured c (create_table spark config name fms_name cols business_keys c)
  create_table-Ensured [] c h e = (refl, refl)
  create_table-Ensured (column ∷ cols) c h e = elim (Bool-cases (spark.creates name)) [
    | inl k ↦ rw (k, h, e) (refl, refl, refl)
    | inr k ↦ rw k (refl, refl)
  ]

  ensure-Ensured :
      (c : Catalog)
      → Ensured c (ensure_iceberg_table_exists spark config fms_name columns business_keys c)
  unfolding ensure_iceberg_table_exists
  ensure-Ensured c = elim (Option-cases (lookup name c.tables)) [
    | inl h ↦ rw h (create_table-Ensured columns c h refl)
    | inr (table, h) ↦ rw h (sym (ap (λ o. with_table o c.tables) h), refl, refl)
  ]

pub add_csv_to_iceberg_table-CodeOutcome :
    (spark : Spark) (config : LakehouseParquetCodecConfig)
    (publications : Dict FmsPublicationSchema) (columns : List Column) (fms_name : Text) (raw : ℕ)
    (c : Catalog)
    → contains c.temp_views spark.view_name ≡ false
    → CodeOutcome spark config publications columns fms_name raw c
        (add_csv_to_iceberg_table spark config publications columns fms_name raw c)
unfolding add_csv_to_iceberg_table
add_csv_to_iceberg_table-CodeOutcome spark config publications columns fms_name raw c h =
    Ensured-Outcome spark config publications columns fms_name raw c
      (ensure_iceberg_table_exists spark config fms_name columns
        (business_keys spark config publications columns fms_name raw) c)
      (ensure-Ensured spark config publications columns fms_name raw c) h
