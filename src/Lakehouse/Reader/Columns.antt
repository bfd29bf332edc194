-- ===== src/Lakehouse/Reader/Columns.antt =====
-- The columns of a frame that is read with a schema.
use entsoe_pipeline.Prelude.{
  ◌≡◌, Bool, true, false, not, ◌&&◌, Option, none, List, [], ◌∷◌, ◌++◌, map, any, Text, contains,
}
use entsoe_pipeline.Lakehouse.Contracts.{StructField, string_type}
use entsoe_pipeline.Lakehouse.Reader.{Column, csv_column_of, cast_of}

-- No two fields have one name.
abbrev pub Distinct : List StructField → Type 0
Distinct [] = Unit
Distinct (f ∷ fs) = (contains (map (λ g. g.name) fs) f.name ≡ false) × Distinct fs

abbrev pub present : List Text → StructField → Bool
present header f = contains header (csv_column_of f)

abbrev pub all_present : List Text → List StructField → Bool
all_present header [] = true
all_present header (f ∷ fs) = present header f && all_present header fs

-- A field whose name the frame lacks ends the casts with an exception.
abbrev lacking : List Text → List StructField → Bool
lacking ns = any (λ f. not (contains ns f.name))

abbrev raw : StructField → Column
raw f = record { name = f.name; data_type = string_type; date_format = none }

module _ (d : Option Text) where
  -- The frame once the fields of `done` are cast and those of `rest` are not
  abbrev between : List StructField → List StructField → List Column
  between done rest = map (cast_of d) done ++ map raw rest

  -- Names of the fields done, for those to come
  abbrev Apart : List StructField → List StructField → Type 0
  Apart done [] = Unit
  Apart done (f ∷ fs) = (contains (map (λ g. g.name) done) f.name ≡ false) × Apart done fs
