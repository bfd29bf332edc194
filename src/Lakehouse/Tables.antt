-- ===== src/Lakehouse/Tables.antt =====
-- src/entsoe_pipeline/lakehouse/iceberg_tables.py, core/merge_to_iseberg.py, add_csv_to_iceberg.py and
-- config/core/lakehouse_parquet_codec.py: a frame on its way into the table of its contract. What Spark
-- does is kept as its catalog, its temporary views and the writes that went through; whether a
-- statement goes through is a parameter. Sizes are below 2^52, where Python's float division and `int`
-- agree with the division of natural numbers.
pub mod Files
pub mod Steps
pub mod Outcome
use entsoe_pipeline.Prelude.{
  ℕ, ◌*◌, ◌/◌, max, Bool, true, false, not, Option, none, some, List, [], ◌∷◌, ◌++◌, map, filter,
  Text, text, ◌==◌, lower, replace_char, nat_eq, Dict, lookup, insert, if◌then◌else◌,
}
use entsoe_pipeline.Lakehouse.Contracts.{FmsPublicationSchema, or_default, get_domain_business_keys}
use entsoe_pipeline.Lakehouse.Reader.{Column}

pub record ParquetWriteProperties : Type 0 where
  pub compression_codec : Text
  pub compression_level : ℕ
  pub target_parquet_size_bytes : ℕ

-- A mapping of the YAML with these keys, each of which may be absent.
pub record WriteOptions : Type 0 where
  pub compression_codec : Option Text
  pub compression_level : Option ℕ
  pub target_parquet_size_bytes : Option ℕ

abbrev pub from_dict : WriteOptions → ParquetWriteProperties
from_dict options = record {
  compression_codec = or_default options.compression_codec (text "zstd");
  compression_level = or_default options.compression_level 3;
  target_parquet_size_bytes = or_default options.target_parquet_size_bytes 268435456;
}

abbrev pub first_given {ℓ} : {A : Type ℓ} → Option A → Option A → Option A
first_given none other = other
first_given (some x) other = some x

-- `{**write_props_data, **pub_data}`
abbrev pub merged : WriteOptions → WriteOptions → WriteOptions
merged base over = record {
  compression_codec = first_given over.compression_codec base.compression_codec;
  compression_level = first_given over.compression_level base.compression_level;
  target_parquet_size_bytes =
      first_given over.target_parquet_size_bytes base.target_parquet_size_bytes;
}

pub record LakehouseParquetCodecConfig : Type 0 where
  pub purge_raw_after_transform : Bool
  pub write_properties : ParquetWriteProperties
  pub publication_overrides : Dict ParquetWriteProperties

unfoldable pub codec_from_yaml :
    Option Bool → WriteOptions → Dict WriteOptions → LakehouseParquetCodecConfig
codec_from_yaml purge write_props_data overrides_data = record {
  purge_raw_after_transform = or_default purge false;
  write_properties = from_dict write_props_data;
  publication_overrides =
      map (λ (pub_name, pub_data). (pub_name, from_dict (merged write_props_data pub_data)))
        overrides_data;
}

-- `publication_overrides.get(fms_name) or write_properties`
unfoldable pub write_props_for : LakehouseParquetCodecConfig → Text → ParquetWriteProperties
unfolding lookup
write_props_for config fms_name =
    or_default (lookup fms_name config.publication_overrides) config.write_properties

pub record Table : Type 0 where
  pub columns : List Column
  pub identifier_fields : List Text
  pub properties : ParquetWriteProperties

-- A write that went through, with the conditions of a merge's join and the number of files it is
-- coalesced to.
pub data Write : Type 0 where
  append_write : Text → ℕ → Write
  merge_write : Text → List Text → ℕ → Write

pub record Catalog : Type 0 where
  pub tables : Dict Table
  pub temp_views : List Text
  pub writes : List Write

pub data SparkRun : Type 0 where
  wrote raised_error : Catalog → SparkRun

pub record Spark : Type 0 where
  pub namespace : Text
  pub creates : Text → Bool
  pub writes : Text → Bool
  -- the name of the session's new view
  pub view_name : Text

module _ (spark : Spark) (config : LakehouseParquetCodecConfig) where
  unfoldable pub table_name_of : Text → Text
  table_name_of fms_name =
      text "lakehouse."
      ++ (spark.namespace
          ++ (text ".`" ++ (replace_char b'.' (text "_") (lower fms_name) ++ text "`")))

  abbrev pub create_table : Text → Text → List Column → List Text → Catalog → SparkRun
  create_table table_name fms_name [] keys c = raised_error c
  create_table table_name fms_name (column ∷ columns) keys c =
      if spark.creates table_name
      then wrote (record c {
        tables =
            insert table_name
              (record {
                columns = column ∷ columns;
                identifier_fields = keys;
                properties = write_props_for config fms_name;
              })
              c.tables;
      })
      else raised_error c

  abbrev pub unless_exists : Option Table → Catalog → SparkRun → SparkRun
  unless_exists (some table) c create = wrote c
  unless_exists none c create = create

  unfoldable pub ensure_iceberg_table_exists : Text → List Column → List Text → Catalog → SparkRun
  unfolding table_name_of write_props_for
  ensure_iceberg_table_exists fms_name columns keys c =
      unless_exists (lookup (table_name_of fms_name) c.tables) c
        (create_table (table_name_of fms_name) fms_name columns keys c)

  abbrev pub with_write : Write → Catalog → Catalog
  with_write write c = record c { writes = c.writes ++ (write ∷ []) }

  abbrev pub join_conditions : List Text → List Text
  join_conditions = map (λ col_name. text "t." ++ (col_name ++ (text " = s." ++ col_name)))

  abbrev pub drop_view : Catalog → Catalog
  drop_view c = record c { temp_views = filter (λ v. not (v == spark.view_name)) c.temp_views }

  abbrev pub with_view : Catalog → Catalog
  with_view c = record c { temp_views = spark.view_name ∷ c.temp_views }

  unfoldable pub merge_dataframe_into_table : Text → List Text → ℕ → Catalog → SparkRun
  merge_dataframe_into_table table_name [] num_files c = raised_error c
  merge_dataframe_into_table table_name (key ∷ keys) num_files c =
      let viewed = with_view c in
      if spark.writes table_name
      then wrote (
          drop_view
            (with_write (merge_write table_name (join_conditions (key ∷ keys)) num_files) viewed))
      else raised_error (drop_view viewed)

  abbrev pub append_frame : Text → ℕ → Catalog → SparkRun
  append_frame table_name num_files c =
      if spark.writes table_name
      then wrote (with_write (append_write table_name num_files) c)
      else raised_error c

  abbrev pub write_frame : Text → List Text → ℕ → Catalog → SparkRun
  write_frame table_name [] num_files c = append_frame table_name num_files c
  write_frame table_name (key ∷ keys) num_files c =
      merge_dataframe_into_table table_name (key ∷ keys) num_files c

  abbrev pub then_run : SparkRun → (Catalog → SparkRun) → SparkRun
  then_run (wrote c) k = k c
  then_run (raised_error c) k = raised_error c

  abbrev pub keys_of : Option FmsPublicationSchema → List Text
  keys_of none = []
  keys_of (some publication) = get_domain_business_keys publication

  -- `max(1, int(total_raw_size_bytes / (target_size_bytes * 5)))`
  unfoldable pub num_files_for : ℕ → ℕ → ℕ
  num_files_for target_size_bytes total_raw_size_bytes =
      max 1 (total_raw_size_bytes / (target_size_bytes * 5))

  -- A target size of zero is a `ZeroDivisionError`.
  unfoldable pub add_csv_to_iceberg_table :
      Dict FmsPublicationSchema → List Column → Text → ℕ → Catalog → SparkRun
  unfolding ensure_iceberg_table_exists merge_dataframe_into_table num_files_for
      get_domain_business_keys
  add_csv_to_iceberg_table publications columns fms_name total_raw_size_bytes c =
      let keys = keys_of (lookup fms_name publications) in
      let target = (write_props_for config fms_name).target_parquet_size_bytes in
      then_run (ensure_iceberg_table_exists fms_name columns keys c) (λ created.
        if nat_eq target 0
        then raised_error created
        else write_frame (table_name_of fms_name) keys (num_files_for target total_raw_size_bytes)
            created)
