-- ===== src/Lakehouse/Tables/Outcome.antt =====
-- What one call of add_csv_to_iceberg_table leaves in the catalog.
use entsoe_pipeline.Prelude.{
  ◌≡◌, refl, ap, ◌∙◌, false, Option, none, some, List, [], ◌∷◌, ◌++◌, Text, lookup, insert, Dict,
  contains, nat_eq, filter, not, ◌==◌, if◌then◌else◌, ℕ, ◌*◌, ◌&&◌, ◌||◌, text, lower, replace_char,
  map, nat_eq, arith,
}
use entsoe_pipeline.Lakehouse.Contracts.{
  FmsColumnSchema, FmsPublicationSchema, or_default, is_key, get_domain_business_keys,
}
use entsoe_pipeline.Lakehouse.Tables.Files.{Between, num_files_for_lem}
use entsoe_pipeline.Lakehouse.Reader.{Column}
use entsoe_pipeline.Lakehouse.Tables.{
  Spark, ParquetWriteProperties, LakehouseParquetCodecConfig, Catalog, SparkRun, wrote,
  raised_error, Table, Write, append_write, merge_write, write_props_for, table_name_of, keys_of,
  add_csv_to_iceberg_table,
}
use entsoe_pipeline.Lakehouse.Tables.Steps.{
  CodeOutcome, with_table, write_of, business_keys, files, add_csv_to_iceberg_table-CodeOutcome,
}

-- What the call should leave, in the terms of the configuration.
module _ (spark : Spark) (config : LakehouseParquetCodecConfig)
    (publications : Dict FmsPublicationSchema) (columns : List Column) (fms_name : Text)
    (raw : ℕ) where
  -- The table of the contract
  abbrev pub contract_table : Text
  contract_table =
      text "lakehouse."
      ++ (spark.namespace
          ++ (text ".`" ++ (replace_char b'.' (text "_") (lower fms_name) ++ text "`")))

  -- The required columns of type string or timestamp, but for the time of the update
  abbrev pub keys_in : List FmsColumnSchema → List Text
  keys_in [] = []
  keys_in (col ∷ cols) =
      let rest = keys_in cols in
      if col.required
        && ((lower col.type == text "string" || lower col.type == text "timestamp")
            && not (col.db_name == text "update_time_utc"))
      then col.db_name ∷ rest
      else rest

  abbrev pub contract_keys : Option FmsPublicationSchema → List Text
  contract_keys none = []
  contract_keys (some publication) = keys_in publication.columns

  -- The override of the contract, or the settings of all
  abbrev pub settings : Option ParquetWriteProperties → ParquetWriteProperties
  settings none = config.write_properties
  settings (some override) = override

  abbrev pub contract_settings : ParquetWriteProperties
  contract_settings = settings (lookup fms_name config.publication_overrides)

  abbrev pub tables_with : Option Table → Dict Table → Dict Table
  tables_with (some table) tables = tables
  tables_with none tables =
      insert contract_table
        (record {
          columns = columns;
          identifier_fields = contract_keys (lookup fms_name publications);
          properties = contract_settings;
        })
        tables

  abbrev pub contract_write : List Text → ℕ → Write
  contract_write [] n = append_write contract_table n
  contract_write (key ∷ keys) n =
      merge_write contract_table (map (λ k. text "t." ++ (k ++ (text " = s." ++ k))) (key ∷ keys)) n

  abbrev pub Outcome : Catalog → SparkRun → Type 0
  Outcome c (wrote d) =
      (d.tables ≡ tables_with (lookup contract_table c.tables) c.tables)
      × ((n : ℕ) × Between (contract_settings.target_parquet_size_bytes * 5) raw n
          × (d.writes
              ≡ c.writes ++ (contract_write (contract_keys (lookup fms_name publications)) n ∷ [])))
      × (d.temp_views ≡ c.temp_views)
  Outcome c (raised_error d) = (d.writes ≡ c.writes) × (d.temp_views ≡ c.temp_views)

  keys_in-is_key :
      (cols : List FmsColumnSchema) → map (λ col. col.db_name) (filter is_key cols) ≡ keys_in cols
  keys_in-is_key [] = refl
  keys_in-is_key (col ∷ cols) = ground (arith, keys_in-is_key cols)

  contract_keys_are :
      (publication : Option FmsPublicationSchema)
      → keys_of spark config publication ≡ contract_keys publication
  unfolding get_domain_business_keys
  contract_keys_are none = refl
  contract_keys_are (some publication) = keys_in-is_key publication.columns

  settings_are :
      (override : Option ParquetWriteProperties)
      → or_default override config.write_properties ≡ settings override
  settings_are none = refl
  settings_are (some override) = refl

  contract_settings_are : write_props_for config fms_name ≡ contract_settings
  unfolding write_props_for
  contract_settings_are = settings_are (lookup fms_name config.publication_overrides)

  pub table_name_of-contract_table : table_name_of spark config fms_name ≡ contract_table
  unfolding table_name_of
  table_name_of-contract_table = refl

  abbrev code_keys : List Text
  code_keys = business_keys spark config publications columns fms_name raw

  abbrev code_files : ℕ
  code_files = files spark config publications columns fms_name raw

  keys_are : code_keys ≡ contract_keys (lookup fms_name publications)
  keys_are = contract_keys_are (lookup fms_name publications)

  tables_are :
      (o : Option Table) (tables : Dict Table)
      → with_table spark config publications columns fms_name raw o tables ≡ tables_with o tables
  tables_are (some table) tables = refl
  tables_are none tables = rw (table_name_of-contract_table, keys_are, contract_settings_are) refl

  write_is :
      (keys : List Text)
      → write_of spark config publications columns fms_name raw keys
        ≡ contract_write keys code_files
  write_is [] = rw table_name_of-contract_table refl
  write_is (key ∷ keys) = rw table_name_of-contract_table refl

  files-Between :
      nat_eq (write_props_for config fms_name).target_parquet_size_bytes 0 ≡ false
      → Between (contract_settings.target_parquet_size_bytes * 5) raw code_files
  files-Between h =
      let target = (write_props_for config fms_name).target_parquet_size_bytes in
      rw⁻¹ contract_settings_are (num_files_for_lem spark config target raw (ground (arith, h)))

  CodeOutcome-Outcome :
      (c : Catalog) (run : SparkRun)
      → CodeOutcome spark config publications columns fms_name raw c run
      → Outcome c run
  CodeOutcome-Outcome c (wrote d) h = (
    h.0
        ∙ tables_are (lookup (table_name_of spark config fms_name) c.tables) c.tables
        ∙ ap (λ n. tables_with (lookup n c.tables) c.tables) table_name_of-contract_table,
    (
      code_files,
      files-Between h.3,
      h.1
          ∙ ap (λ w. c.writes ++ (w ∷ []))
              (write_is code_keys ∙ ap (λ keys. contract_write keys code_files) keys_are),
    ),
    h.2,
  )
  CodeOutcome-Outcome c (raised_error d) h = h

-- In a session whose new view has a fresh name, one call either goes through or raises. When it goes
-- through, the only change to the tables is that of the contract where it was missing, with the columns
-- of the frame, the contract's keys (its required columns of type string or timestamp but for
-- update_time_utc) and its settings, and there is exactly one more write, to that table: a merge on the
-- keys, or an append where there are none, in one file at least, in no more files than the raw bytes
-- fill at five times the target size each but for a single one, and in so many that one more would not
-- be filled. When it raises, nothing is written. Either way the temporary views are those before the
-- call.
pub add_csv_to_iceberg_table_lem :
    (spark : Spark) (config : LakehouseParquetCodecConfig)
    (publications : Dict FmsPublicationSchema) (columns : List Column) (fms_name : Text) (raw : ℕ)
    (c : Catalog)
    → contains c.temp_views spark.view_name ≡ false
    → Outcome spark config publications columns fms_name raw c
        (add_csv_to_iceberg_table spark config publications columns fms_name raw c)
add_csv_to_iceberg_table_lem spark config publications columns fms_name raw c h =
    CodeOutcome-Outcome spark config publications columns fms_name raw c
      (add_csv_to_iceberg_table spark config publications columns fms_name raw c)
      (add_csv_to_iceberg_table-CodeOutcome spark config publications columns fms_name raw c h)
