-- ===== src/Tests/Tables.antt =====
-- The tables of a contract with a timestamp and a value, in a session that writes whatever it is asked
-- to.
use entsoe_pipeline.Prelude.{
  ◌≡◌, refl, true, false, none, some, List, [], ◌∷◌, any, All, Text, text, ◌==◌, contains, Dict,
  lower,
}
use entsoe_pipeline.Lakehouse.Contracts.{
  FmsColumnSchema, FmsPublicationSchema, build_spark_schema_from_fms, get_domain_business_keys,
  StructField, timestamp_type, decimal_type,
}
use entsoe_pipeline.Lakehouse.Reader.{Column}
use entsoe_pipeline.Lakehouse.Tables.{
  Spark, Catalog, LakehouseParquetCodecConfig, WriteOptions, add_csv_to_iceberg_table,
}
use entsoe_pipeline.Lakehouse.Tables.Outcome.{Outcome, add_csv_to_iceberg_table_lem}
use entsoe_pipeline.Lakehouse.Names.{to_snake_case}
use entsoe_pipeline.Lakehouse.Names.Safety.{IsSafe, to_snake_case-IsSafe}
use entsoe_pipeline.Lakehouse.Generator.{
  SchemaReader, Overrides, is_technical, run_schema_generation,
}
use entsoe_pipeline.Lakehouse.Generator.Samples.{sample_with}
use entsoe_pipeline.Lakehouse.Generator.Registered.{
  Registered, is_unknown, run_schema_generation-Registered,
}

abbrev time : FmsColumnSchema
time = record {
  csv_name = text "DateTime(UTC)";
  db_name = text "date_time_utc";
  type = text "timestamp";
  required = true;
  format = some (text "yyyy-MM-dd HH:mm");
  example = none;
  description = none;
}

abbrev load : FmsColumnSchema
load = record {
  csv_name = text "Load[MW]";
  db_name = text "load_mw";
  type = text "Decimal(18, 4)";
  required = false;
  format = none;
  example = none;
  description = some (text "load");
}

abbrev contract : FmsPublicationSchema
contract = record { name = text "Load"; zendesk_url = none; columns = time ∷ load ∷ [] }

abbrev contracts : Dict FmsPublicationSchema
contracts = (text "Load_r3", contract) ∷ []

abbrev fields : List StructField
fields =
    record {
      name = text "date_time_utc";
      data_type = timestamp_type;
      nullable = false;
      source_csv_column = text "DateTime(UTC)";
      description = none;
    }
    ∷ record {
      name = text "load_mw";
      data_type = decimal_type 18 4;
      nullable = true;
      source_csv_column = text "Load[MW]";
      description = some (text "load");
    }
    ∷ []

build_spark_schema_from_fms_run : build_spark_schema_from_fms contract ≡ fields
unfolding build_spark_schema_from_fms ◌==◌
build_spark_schema_from_fms_run = refl

get_domain_business_keys_run : get_domain_business_keys contract ≡ text "date_time_utc" ∷ []
unfolding get_domain_business_keys ◌==◌ lower
get_domain_business_keys_run = refl

abbrev header : List Text
header = text "Load[MW]" ∷ text "DateTime(UTC)" ∷ text "Area" ∷ []

abbrev session : Spark
session = record {
  namespace = text "staging";
  creates = λ table_name. true;
  writes = λ table_name. true;
  view_name = text "src_merge_temp_0a1b2c3d";
}

abbrev no_options : WriteOptions
no_options = record {
  compression_codec = none;
  compression_level = none;
  target_parquet_size_bytes = none;
}

abbrev codec : LakehouseParquetCodecConfig
codec = record {
  purge_raw_after_transform = false;
  write_properties = record {
    compression_codec = text "zstd";
    compression_level = 3;
    target_parquet_size_bytes = 100;
  };
  publication_overrides = [];
}

abbrev empty_catalog : Catalog
empty_catalog = record { tables = []; temp_views = []; writes = [] }

abbrev columns : List Column
columns = record { name = text "load_mw"; data_type = decimal_type 18 4; date_format = none } ∷ []

no_views : contains [] session.view_name ≡ false
unfolding contains
no_views = refl

add_csv_to_iceberg_table_lem_example :
    Outcome session codec contracts columns
      (text "Load_r3")
      1700
      empty_catalog
      (add_csv_to_iceberg_table session codec contracts columns (text "Load_r3") 1700 empty_catalog)
add_csv_to_iceberg_table_lem_example =
    add_csv_to_iceberg_table_lem session codec contracts columns (text "Load_r3") 1700 empty_catalog
      no_views

to_snake_case-IsSafe_example : All IsSafe (to_snake_case (text "Price-Area [EUR/MWh]"))
to_snake_case-IsSafe_example = to_snake_case-IsSafe (text "Price-Area [EUR/MWh]")

abbrev reader : SchemaReader
reader = record { infer = λ path. none; parse_datatype_string = λ type_str. none }

abbrev overrides : Overrides
overrides = record { global_overrides = []; endpoint_overrides = [] }

abbrev keys : List Text
keys = text "iop/TP_export/Load/Load_r3/2026_01.csv" ∷ text "iop/TP_export/readme" ∷ []

load-data : is_technical (text "Load_r3") ≡ false
unfolding is_technical ◌==◌
load-data = refl

run_schema_generation-Registered_example :
    Registered reader contracts
      (text "bucket")
      overrides
      (text "Load_r3")
      (any (sample_with (is_unknown reader contracts (text "bucket") overrides)) keys)
      (any (sample_with (λ q. q == text "Load_r3")) keys)
      []
      (run_schema_generation reader contracts (text "bucket") overrides keys [])
run_schema_generation-Registered_example =
    run_schema_generation-Registered reader contracts (text "bucket") overrides (text "Load_r3")
      load-data keys []
