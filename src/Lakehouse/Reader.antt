-- ===== src/Lakehouse/Reader.antt =====
-- src/entsoe_pipeline/spark/landing_csv_reader.py and spark/core/load_raw_csv.py: the frame that the
-- files of a contract are read into, by its columns. Spark's answers are parameters: the header of the
-- files, and the columns that it infers where the contract has none. Columns are found by their exact
-- names, as for headers whose names differ by more than case.
pub mod Columns
use entsoe_pipeline.Prelude.{
  Bool, true, false, Option, none, some, List, [], ◌∷◌, ◌++◌, map, filter, Text, text, ◌==◌,
  contains, lower, lstrip, Dict, lookup, if◌then◌else◌,
}
use entsoe_pipeline.Lakehouse.Names.{to_snake_case}
use entsoe_pipeline.Lakehouse.Contracts.{
  FmsColumnSchema, FmsPublicationSchema, SparkType, string_type, timestamp_type, StructField,
  build_spark_schema_from_fms,
}

-- A column: its type, and the format that its dates are parsed with.
pub record Column : Type 0 where
  pub name : Text
  pub data_type : SparkType
  pub date_format : Option Text

-- `field.metadata.get("source_csv_column")`, or the field's name
abbrev pub csv_column_of : StructField → Text
csv_column_of field = elim field.source_csv_column [ [] ↦ field.name | c ∷ s ↦ c ∷ s ]

-- The fields whose column the files have, under their own names, still as text
unfoldable pub select_columns : List Text → List StructField → List Column
select_columns header [] = []
select_columns header (field ∷ fields) =
    let rest = select_columns header fields in
    if contains header (csv_column_of field)
    then record { name = field.name; data_type = string_type; date_format = none } ∷ rest
    else rest

abbrev pub names : List Column → List Text
names = map (λ c. c.name)

abbrev pub format_for : SparkType → Option Text → Option Text
format_for timestamp_type date_format = date_format
format_for _ date_format = none

abbrev pub cast_of : Option Text → StructField → Column
cast_of date_format field = record {
  name = field.name;
  data_type = field.data_type;
  date_format = format_for field.data_type date_format;
}

abbrev pub replace_column : Option Text → StructField → List Column → List Column
replace_column date_format field =
    map (λ c. if c.name == field.name then cast_of date_format field else c)

-- `df.withColumn(name, col(name)...)`; Spark raises where the frame has no column of the name.
abbrev pub cast_column : Option Text → StructField → List Column → Option (List Column)
cast_column date_format field df =
    if contains (names df) field.name then some (replace_column date_format field df) else none

abbrev pub then_cast :
    Option (List Column) → (List Column → Option (List Column)) → Option (List Column)
then_cast none k = none
then_cast (some df) k = k df

unfoldable pub cast_columns : Option Text → List StructField → List Column → Option (List Column)
cast_columns date_format [] df = some df
cast_columns date_format (field ∷ fields) df =
    then_cast (cast_column date_format field df) (cast_columns date_format fields)

-- Replacing blanks by nulls, in between, keeps the columns.
unfoldable pub load_raw_csv_with_schema :
    List Text → List StructField → Option Text → Option (List Column)
unfolding select_columns cast_columns
load_raw_csv_with_schema header spark_schema date_format =
    cast_columns date_format spark_schema (select_columns header spark_schema)

abbrev pub format_given : Option Text → Option Text → Option Text
format_given none other = other
format_given (some f) other = elim f [ [] ↦ other | c ∷ s ↦ some (c ∷ s) ]

-- The format of the first timestamp column that has one
unfoldable pub date_format_of : List FmsColumnSchema → Option Text
date_format_of [] = none
date_format_of (col ∷ columns) =
    let other = date_format_of columns in
    if lower col.type == text "timestamp" then format_given col.format other else other

abbrev pub s3a_path : Text → Text → Text
s3a_path landing_bucket s3_key = text "s3a://" ++ (landing_bucket ++ (b'/' ∷ lstrip b'/' s3_key))

abbrev pub then_header :
    Option (List Text) → (List Text → Option (List Column)) → Option (List Column)
then_header none k = none
then_header (some header) k = k header

-- `df.withColumnRenamed(existing, new)`
abbrev pub rename_column : Text → List Column → List Column
rename_column existing = map (λ c.
    if c.name == existing
    then record {
      name = to_snake_case existing;
      data_type = c.data_type;
      date_format = c.date_format;
    }
    else c)

abbrev pub rename_all : List Text → List Column → List Column
rename_all [] df = df
rename_all (col_name ∷ col_names) df = rename_all col_names (rename_column col_name df)

abbrev pub sanitized : Option (List Column) → Option (List Column)
sanitized none = none
sanitized (some df) = some (rename_all (names df) df)

module _ (schemas : Dict FmsPublicationSchema) (landing_bucket : Text)
    (header_of : List Text → Option (List Text)) (infer : List Text → Option (List Column)) where
  abbrev pub read_columns :
      FmsPublicationSchema → List FmsColumnSchema → List Text → Option (List Column)
  read_columns publication [] paths = sanitized (infer paths)
  read_columns publication (col ∷ columns) paths = then_header (header_of paths) (λ header.
      load_raw_csv_with_schema header (build_spark_schema_from_fms publication)
        (date_format_of (col ∷ columns)))

  abbrev pub read_publication : Option FmsPublicationSchema → List Text → Option (List Column)
  read_publication none paths = none
  read_publication (some publication) paths = read_columns publication publication.columns paths

  -- `none` is an exception: no keys, no schema of the contract, or one of Spark.
  unfoldable pub read_landing_csv_dataset : List Text → Text → Option (List Column)
  unfolding load_raw_csv_with_schema build_spark_schema_from_fms date_format_of lookup to_snake_case
  read_landing_csv_dataset [] fms_name = none
  read_landing_csv_dataset (s3_key ∷ s3_keys) fms_name =
      read_publication (lookup fms_name schemas) (map (s3a_path landing_bucket) (s3_key ∷ s3_keys))
