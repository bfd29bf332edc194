-- ===== src/Lakehouse/Contracts.antt =====
-- src/entsoe_pipeline/config/core/entsoe_fms_schemas.py, spark/entsoe_fms_schemas_mapping.py and
-- lakehouse/core/get_domain_business_keys.py: the columns of a publication, their Spark types, and the
-- keys of its table.
use Prim.Native.Nat.{◌+◌, ◌*◌, ◌-◌}
use entsoe_pipeline.Prelude.{
  ℕ, ◌≡◌, refl, Bool, false, not, ◌&&◌, ◌||◌, Option, none, some, List, [], ◌∷◌, map, filter, Text,
  text, ◌==◌, lower, starts_with, drop, nat_eq, leb, Dict, if◌then◌else◌,
}
use entsoe_pipeline.Prelude.Texts.Spaces.{lstrip_space, strip_space}

pub record FmsColumnSchema : Type 0 where
  pub csv_name : Text
  pub db_name : Text
  pub type : Text
  pub required : Bool
  pub format : Option Text
  pub example : Option Text
  pub description : Option Text

pub record FmsPublicationSchema : Type 0 where
  pub name : Text
  pub zendesk_url : Option Text
  pub columns : List FmsColumnSchema

-- A column and a publication of the YAML, whose keys may be absent; the values have their types.
pub record RawColumn : Type 0 where
  pub csv_name : Option Text
  pub db_name : Option Text
  pub type : Option Text
  pub required : Option Bool
  pub format : Option Text
  pub example : Option Text
  pub description : Option Text

pub record RawPublication : Type 0 where
  pub name : Option Text
  pub zendesk_url : Option Text
  pub columns : Option (List RawColumn)

abbrev pub or_default {ℓ} : {A : Type ℓ} → Option A → A → A
or_default none other = other
or_default (some x) other = x

abbrev pub column_from : RawColumn → FmsColumnSchema
column_from col = record {
  csv_name = or_default col.csv_name [];
  db_name = or_default col.db_name [];
  type = or_default col.type (text "string");
  required = or_default col.required false;
  format = col.format;
  example = col.example;
  description = col.description;
}

unfoldable pub schemas_from_yaml : Dict RawPublication → Dict FmsPublicationSchema
schemas_from_yaml = map (λ (pub_key, pub_val). (
  pub_key,
  record {
    name = or_default pub_val.name [];
    zendesk_url = pub_val.zendesk_url;
    columns = map column_from (or_default pub_val.columns []);
  },
))

-- Types of other names are those of Spark's own parser.
pub data SparkType : Type 0 where
  string_type boolean_type timestamp_type integer_type long_type double_type : SparkType
  decimal_type : ℕ → ℕ → SparkType
  other_type : Text → SparkType

-- `\d` and `\s*c`
abbrev pub is_digit : ℕ → Bool
is_digit c = leb b'0' c && leb c b'9'

abbrev pub after_char : ℕ → Text → Option Text
after_char c [] = none
after_char c (d ∷ s) = if nat_eq d c then some s else none

-- The value of the digits in front, and what follows them.
unfoldable pub digits : ℕ → Text → ℕ × Text
digits value [] = (value, [])
digits value (c ∷ s) =
    let more = digits (value * 10 + (c - b'0')) s in if is_digit c then more else (value, c ∷ s)

-- `\s*(\d+)`, at least one digit
abbrev pub number_at : Text → Option (ℕ × Text)
number_at [] = none
number_at (c ∷ s) = if is_digit c then some (digits 0 (c ∷ s)) else none

abbrev pub then_text {ℓ} : {B : Type ℓ} → Option Text → (Text → Option B) → Option B
then_text none k = none
then_text (some s) k = k s

abbrev pub then_number {ℓ} : {B : Type ℓ} → Option (ℕ × Text) → (ℕ → Text → Option B) → Option B
then_number none k = none
then_number (some (n, s)) k = k n s

-- `decimal\s*\(\s*(\d+)\s*,\s*(\d+)\s*\)` at the start of the text, after `decimal`
unfoldable pub decimal_arguments : Text → Option (ℕ × ℕ)
unfolding digits lstrip_space
decimal_arguments s = then_text (after_char b'(' (lstrip_space s)) (λ t.
    then_number (number_at (lstrip_space t)) (λ precision u.
      then_text (after_char b',' (lstrip_space u)) (λ v.
        then_number (number_at (lstrip_space v)) (λ scale r.
          then_text (after_char b')' (lstrip_space r)) (λ _. some (precision, scale))))))

abbrev pub decimal_or_string : Option (ℕ × ℕ) → SparkType
decimal_or_string none = string_type
decimal_or_string (some (precision, scale)) = decimal_type precision scale

-- The tests of the types that have a name, in order
abbrev pub named_type : Text → Option SparkType
named_type t =
    if t == text "string"
    then some string_type
    else if t == text "boolean"
    then some boolean_type
    else if t == text "timestamp"
    then some timestamp_type
    else if t == text "integer" || t == text "int"
    then some integer_type
    else if t == text "long"
    then some long_type
    else if t == text "double"
    then some double_type
    else none

abbrev pub type_or : Option SparkType → SparkType → SparkType
type_or none other = other
type_or (some t) other = t

unfoldable pub parse_fms_type_to_spark : Text → SparkType
unfolding lower strip_space decimal_arguments starts_with
parse_fms_type_to_spark type_str =
    let t = strip_space (lower type_str) in
    type_or (named_type t) (
      if starts_with t (text "decimal")
      then decimal_or_string (decimal_arguments (drop 7 t))
      else string_type)

pub record StructField : Type 0 where
  pub name : Text
  pub data_type : SparkType
  pub nullable : Bool
  pub source_csv_column : Text
  pub description : Option Text

-- `if col.description`
abbrev pub description_of : Option Text → Option Text
description_of none = none
description_of (some d) = elim d [ [] ↦ none | c ∷ s ↦ some (c ∷ s) ]

unfoldable pub build_spark_schema_from_fms : FmsPublicationSchema → List StructField
unfolding parse_fms_type_to_spark
build_spark_schema_from_fms publication_schema =
    map
      (λ col. record {
        name = col.db_name;
        data_type = parse_fms_type_to_spark col.type;
        nullable = not col.required;
        source_csv_column = col.csv_name;
        description = description_of col.description;
      })
      publication_schema.columns

abbrev pub is_key : FmsColumnSchema → Bool
is_key col =
    (col.required && (lower col.type == text "string" || lower col.type == text "timestamp"))
    && not (col.db_name == text "update_time_utc")

unfoldable pub get_domain_business_keys : FmsPublicationSchema → List Text
get_domain_business_keys publication_schema =
    map (λ col. col.db_name) (filter is_key publication_schema.columns)

types_run :
    (parse_fms_type_to_spark (text " Decimal( 18 ,4 ) ") ≡ decimal_type 18 4)
    × (parse_fms_type_to_spark (text "decimal(x)") ≡ string_type)
    × (parse_fms_type_to_spark (text "INT") ≡ integer_type)
unfolding parse_fms_type_to_spark ◌==◌
types_run = (refl, refl, refl)
