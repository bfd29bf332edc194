-- ===== src/Lakehouse/Gateway/Groups.antt =====
-- The groups hold exactly what the gate lets through, by contract and in order.
use mathlib.Core.List.{append-nil, append_assoc}
use mathlib.Core.Option.{get_or}
use entsoe_pipeline.Prelude.{
  ℕ, ◌+◌, ◌≡◌, refl, ◌∙◌, Option, none, some, List, [], ◌∷◌, ◌++◌, length, length-append, filter,
  sum_by, Text, ◌==◌, eq_iff, Dict, lookup, insert, lookup-insert, lookup-nil, Bool-cases,
  if◌then◌else◌, arith, Option-cases, inl, inr,
}
use entsoe_pipeline.Io.Registry.{LandingFile}
use entsoe_pipeline.Classifier.{ClassifierConfig}
use entsoe_pipeline.Lakehouse.Attempts.{PendingRow, Log, fetch_incremental_files_from_db}
use entsoe_pipeline.Lakehouse.Gateway.{
  IngestibleFile, Groups, admit_row, add_admitted, append_to_group, group_rows,
  get_incremental_files_to_ingest,
}

abbrev cons_some : Option IngestibleFile → List IngestibleFile → List IngestibleFile
cons_some none fs = fs
cons_some (some f) fs = f ∷ fs

-- What the gate lets through of a list of rows, in order.
abbrev pub admitted : ClassifierConfig → List PendingRow → List IngestibleFile
admitted classifier [] = []
admitted classifier (row ∷ rows) = cons_some (admit_row classifier row) (admitted classifier rows)

abbrev pub group_of : Text → Groups → List IngestibleFile
group_of contract groups = get_or (lookup contract groups) []

abbrev pub of_contract : Text → List IngestibleFile → List IngestibleFile
of_contract contract = filter (λ f. f.fms_name == contract)

group_of-append_to_group :
    (c : Text) (f : IngestibleFile) (groups : Groups)
    → group_of c (append_to_group f groups)
      ≡ (if f.fms_name == c then group_of c groups ++ (f ∷ []) else group_of c groups)
unfolding append_to_group
group_of-append_to_group c f groups = elim (Option-cases (lookup f.fms_name groups)) [
  | inl e ↦
      rw (e, append_to_group)
        (ground (arith, lookup-insert f.fms_name c (f ∷ []) groups, eq_iff f.fms_name c))
  | inr (fs, e) ↦
      rw (e, append_to_group)
        (ground (arith, lookup-insert f.fms_name c (fs ++ (f ∷ [])) groups, eq_iff f.fms_name c))
]

group_of-add_admitted :
    (c : Text) (o : Option IngestibleFile) (fs : List IngestibleFile) (groups : Groups)
    → group_of c (add_admitted o groups) ++ of_contract c fs
      ≡ group_of c groups ++ of_contract c (cons_some o fs)
unfolding add_admitted
group_of-add_admitted c none fs groups = refl
group_of-add_admitted c (some f) fs groups = elim (Bool-cases (f.fms_name == c)) [
  | inl same ↦
      rw (group_of-append_to_group, same)
        (append_assoc (group_of c groups) (f ∷ []) (of_contract c fs))
  | inr other ↦ rw (group_of-append_to_group, other)
]

group_of-group_rows :
    (classifier : ClassifierConfig) (c : Text) (rows : List PendingRow) (groups : Groups)
    → group_of c (group_rows classifier rows groups)
      ≡ group_of c groups ++ of_contract c (admitted classifier rows)
unfolding group_rows
group_of-group_rows classifier c [] groups = rw append-nil
group_of-group_rows classifier c (row ∷ rows) groups =
    group_of-group_rows classifier c rows (add_admitted (admit_row classifier row) groups)
    ∙ group_of-add_admitted c (admit_row classifier row) (admitted classifier rows) groups

-- How many files the groups hold together.
unfoldable pub total : Groups → ℕ
total groups = sum_by (λ (_, fs). length fs) groups

total-insert :
    (c : Text) (fs : List IngestibleFile) (groups : Groups)
    → total (insert c fs groups) + length (group_of c groups) ≡ total groups + length fs
unfolding total insert lookup
total-insert c fs [] = omega arith
total-insert c fs ((j, gs) ∷ groups) = ground (arith, total-insert c fs groups)

total-append_to_group :
    (f : IngestibleFile) (groups : Groups) → total (append_to_group f groups) ≡ total groups + 1
unfolding append_to_group
total-append_to_group f groups = elim (Option-cases (lookup f.fms_name groups)) [
  | inl e ↦ rw (e, append_to_group) (ground (arith, total-insert f.fms_name (f ∷ []) groups))
  | inr (fs, e) ↦
      rw (e, append_to_group)
        (ground (arith, total-insert f.fms_name (fs ++ (f ∷ [])) groups, length-append fs (f ∷ [])))
]

total-add_admitted :
    (o : Option IngestibleFile) (fs : List IngestibleFile) (groups : Groups)
    → total (add_admitted o groups) + length fs ≡ total groups + length (cons_some o fs)
unfolding add_admitted
total-add_admitted none fs groups = refl
total-add_admitted (some f) fs groups = omega (arith, total-append_to_group f groups)

total-group_rows :
    (classifier : ClassifierConfig) (rows : List PendingRow) (groups : Groups)
    → total (group_rows classifier rows groups) ≡ total groups + length (admitted classifier rows)
unfolding group_rows
total-group_rows classifier [] groups = omega arith
total-group_rows classifier (row ∷ rows) groups = omega (
  arith,
  total-group_rows classifier rows (add_admitted (admit_row classifier row) groups),
  total-add_admitted (admit_row classifier row) (admitted classifier rows) groups,
)

-- The group of a contract is, in order, the files with that contract among the pending ones that the
-- gate lets through, and no file is counted in two groups or dropped: the sizes of the groups add up
-- to the number of files let through.
pub get_incremental_files_to_ingest_lem :
    (classifier : ClassifierConfig) (registry : Dict LandingFile) (log : Log) (contract : Text)
    → (group_of contract (get_incremental_files_to_ingest classifier registry log)
        ≡ of_contract contract (admitted classifier (fetch_incremental_files_from_db registry log)))
      × (total (get_incremental_files_to_ingest classifier registry log)
          ≡ length (admitted classifier (fetch_incremental_files_from_db registry log)))
unfolding get_incremental_files_to_ingest total
get_incremental_files_to_ingest_lem classifier registry log contract = (
  group_of-group_rows classifier contract (fetch_incremental_files_from_db registry log) []
      ∙ rw (lookup-nil {V = List IngestibleFile} contract),
  omega (arith, total-group_rows classifier (fetch_incremental_files_from_db registry log) []),
)
