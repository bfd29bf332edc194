-- ===== src/Lakehouse/Generator.antt =====
-- src/entsoe_pipeline/spark/core/iseberg_schema_generator.py: the registry of table schemas, from the
-- contracts and, for technical files, from what Spark infers. Reading the registry and the overrides
-- is left to the caller, who gives empty ones where that fails.
pub mod Samples
pub mod Registered
use entsoe_pipeline.Prelude.{
  ℕ, ltb, Bool, true, false, not, ◌&&◌, ◌||◌, Option, none, some, List, [], ◌∷◌, ◌++◌, map, length,
  drop, Text, text, ◌==◌, lower, split, starts_with, ends_with, has_substring, Dict, lookup, insert,
  if◌then◌else◌,
}
use mathlib.Core.List.{reverse}
use entsoe_pipeline.Prelude.Texts.Spaces.{strip_space}
use entsoe_pipeline.Lakehouse.Contracts.{
  FmsPublicationSchema, SparkType, string_type, integer_type, long_type, double_type,
  timestamp_type, decimal_type, decimal_arguments, StructField, build_spark_schema_from_fms,
  or_default,
}
use entsoe_pipeline.Lakehouse.Names.{to_snake_case}

-- `endpoint in TECHNICAL_ENDPOINTS`
unfoldable pub is_technical : Text → Bool
is_technical endpoint =
    endpoint == text "Export_log_r3.csv" || endpoint == text "Export_oce_log_r3.csv"

abbrev pub unless_found {ℓ κ} : {A : Type ℓ} {B : Type κ} → Option A → B → B → B
unless_found none added found = added
unless_found (some x) added found = found

abbrev pub with_sample : Text → Text → Text → Dict (Dict Text) → Dict (Dict Text)
with_sample domain endpoint s3_key samples =
    let endpoints = or_default (lookup domain samples) [] in
    let added = insert domain (insert endpoint s3_key endpoints) samples in
    let found = insert domain endpoints samples in
    unless_found (lookup endpoint endpoints) added found

abbrev pub add_sample : Text → List Text → Dict (Dict Text) → Dict (Dict Text)
add_sample s3_key (environment ∷ root ∷ domain ∷ endpoint ∷ parts) samples =
    if ends_with s3_key (text ".csv") then with_sample domain endpoint s3_key samples else samples
add_sample s3_key _ samples = samples

-- The first key of each endpoint in each domain
unfoldable pub samples_to_process : List Text → Dict (Dict Text) → Dict (Dict Text)
unfolding lookup insert split ends_with
samples_to_process [] samples = samples
samples_to_process (s3_key ∷ s3_keys) samples =
    samples_to_process s3_keys (add_sample s3_key (split b'/' s3_key) samples)

-- `pattern[:-1]`
abbrev pub but_last : Text → Text
but_last s = reverse (drop 1 (reverse s))

unfoldable pub matches_pattern : Text → Text → Bool
unfolding starts_with ends_with has_substring
matches_pattern pattern clean_name =
    if starts_with pattern (text "*") && ends_with pattern (text "*")
    then has_substring clean_name (but_last (drop 1 pattern))
    else if starts_with pattern (text "*")
    then ends_with clean_name (drop 1 pattern)
    else if ends_with pattern (text "*")
    then starts_with clean_name (but_last pattern)
    else clean_name == pattern

-- A field that Spark infers: its name, type, and whether it can be null
pub record InferredField : Type 0 where
  pub name : Text
  pub data_type : SparkType
  pub nullable : Bool

pub record Overrides : Type 0 where
  pub global_overrides : Dict Text
  pub endpoint_overrides : Dict (Dict Text)

-- The path of the file to the fields of its sample, or an exception
pub record SchemaReader : Type 0 where
  pub infer : Text → Option (List InferredField)
  pub parse_datatype_string : Text → Option SparkType

abbrev pub decimal_or : Option (ℕ × ℕ) → Option SparkType → Option SparkType
decimal_or none other = other
decimal_or (some (precision, scale)) other = some (decimal_type precision scale)

abbrev pub then_lookup {ℓ} : {A : Type ℓ} → Text → Option (Dict A) → Option A
then_lookup key none = none
then_lookup key (some d) = lookup key d

module _ (reader : SchemaReader) where
  unfoldable pub parse_type_string : Text → Option SparkType
  unfolding lower strip_space starts_with decimal_arguments
  parse_type_string type_str =
      let t = strip_space (lower type_str) in
      let other = reader.parse_datatype_string t in
      if t == text "string"
      then some string_type
      else if t == text "integer" || t == text "int"
      then some integer_type
      else if t == text "long"
      then some long_type
      else if t == text "double"
      then some double_type
      else if t == text "timestamp"
      then some timestamp_type
      else if starts_with t (text "decimal")
      then decimal_or (decimal_arguments (drop 7 t)) other
      else other

  -- A type that cannot be parsed leaves the one before.
  abbrev pub override_by : Option Text → SparkType → SparkType
  override_by none field_type = field_type
  override_by (some type_str) field_type = or_default (parse_type_string type_str) field_type

  -- The first pattern that matches ends the search.
  unfoldable pub global_override : Text → Dict Text → Option Text
  unfolding matches_pattern
  global_override clean_name [] = none
  global_override clean_name ((pattern, type_str) ∷ overrides) =
      let rest = global_override clean_name overrides in
      if matches_pattern pattern clean_name then some type_str else rest

  unfoldable pub clean_field : Overrides → Text → InferredField → StructField
  unfolding parse_type_string global_override to_snake_case lookup
  clean_field overrides endpoint field =
      let clean_name = to_snake_case field.name in
      let globally =
        override_by (global_override clean_name overrides.global_overrides) field.data_type in
      record {
        name = clean_name;
        data_type =
            override_by (then_lookup clean_name (lookup endpoint overrides.endpoint_overrides))
              globally;
        nullable = field.nullable;
        source_csv_column = field.name;
        description = none;
      }

  abbrev pub register :
      Text → Option (List StructField) → Dict (List StructField) → Dict (List StructField)
  register endpoint none registry = registry
  register endpoint (some fields) registry = insert endpoint fields registry

  abbrev pub cleaned : Overrides → Text → Option (List InferredField) → Option (List StructField)
  cleaned overrides endpoint none = none
  cleaned overrides endpoint (some fields) = some (map (clean_field overrides endpoint) fields)

  abbrev pub build : Option FmsPublicationSchema → Option (List StructField)
  build none = none
  build (some pub_schema) = some (build_spark_schema_from_fms pub_schema)

  module _ (fms_publications : Dict FmsPublicationSchema) (landing_bucket : Text)
      (overrides : Overrides) where
    -- `none` is the EntsoeConfigurationError of an endpoint without a contract.
    abbrev pub built :
        Text
        → Option (List StructField)
        → Dict (List StructField)
        → Option (Dict (List StructField))
    built endpoint none registry = none
    built endpoint (some fields) registry = some (insert endpoint fields registry)

    abbrev pub technical_fields : Text → Text → Option (List StructField)
    technical_fields endpoint s3_key =
        cleaned overrides endpoint
          (reader.infer (text "s3a://" ++ (landing_bucket ++ (b'/' ∷ s3_key))))

    unfoldable pub process_endpoint :
        Text → Text → Dict (List StructField) → Option (Dict (List StructField))
    unfolding is_technical clean_field build_spark_schema_from_fms lookup insert
    process_endpoint endpoint s3_key registry =
        if is_technical endpoint
        then some (register endpoint (technical_fields endpoint s3_key) registry)
        else built endpoint (build (lookup endpoint fms_publications)) registry

    abbrev pub then_process :
        Option (Dict (List StructField))
        → (Dict (List StructField) → Option (Dict (List StructField)))
        → Option (Dict (List StructField))
    then_process none k = none
    then_process (some registry) k = k registry

    unfoldable pub process_endpoints :
        Dict Text → Dict (List StructField) → Option (Dict (List StructField))
    unfolding process_endpoint
    process_endpoints [] registry = some registry
    process_endpoints ((endpoint, s3_key) ∷ endpoints) registry =
        then_process (process_endpoint endpoint s3_key registry) (process_endpoints endpoints)

    unfoldable pub process_domains :
        Dict (Dict Text) → Dict (List StructField) → Option (Dict (List StructField))
    unfolding process_endpoints
    process_domains [] registry = some registry
    process_domains ((domain, endpoints) ∷ domains) registry =
        then_process (process_endpoints endpoints registry) (process_domains domains)

    unfoldable pub run_schema_generation :
        List Text → Dict (List StructField) → Option (Dict (List StructField))
    unfolding samples_to_process process_domains
    run_schema_generation s3_keys registry =
        process_domains (samples_to_process s3_keys []) registry
