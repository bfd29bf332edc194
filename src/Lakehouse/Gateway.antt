-- ===== src/Lakehouse/Gateway.antt =====
-- src/entsoe_pipeline/lakehouse/get_files_to_ingest.py
pub mod Admission
pub mod Groups
use entsoe_pipeline.Prelude.{
  ℕ, Bool, true, false, ◌&&◌, Option, none, some, List, [], ◌∷◌, ◌++◌, Text, text, ◌==◌,
  starts_with, split, strip, Dict, lookup, insert, if◌then◌else◌,
}
use entsoe_pipeline.Io.Registry.{LandingFile}
use entsoe_pipeline.Classifier.{ClassifierItem, ClassifierConfig}
use entsoe_pipeline.Lakehouse.Attempts.{PendingRow, Log, fetch_incremental_files_from_db}

abbrev pub giant_bypass_domain_contract : Text
giant_bypass_domain_contract = text "OfferedTransferCapacitiesContinuousEvolution_11.1_r3"

pub record IngestibleFile : Type 0 where
  pub s3_key : Text
  pub xxhash : Text
  pub file_size_bytes : ℕ
  pub logical_domain : Text
  pub fms_name : Text

-- The two loops over the items of one domain. `[]` stands for `None`: the code tests `not fms_name`.
unfoldable pub exact_item : Text → Dict ClassifierItem → Text
exact_item candidate [] = []
exact_item candidate ((_, item) ∷ items) =
    let rest = exact_item candidate items in
    if item.fms_name == candidate then item.fms_name else rest

unfoldable pub prefix_item : Text → Dict ClassifierItem → Text
prefix_item candidate [] = []
prefix_item candidate ((_, item) ∷ items) =
    let rest = prefix_item candidate items in
    if starts_with candidate item.fms_name then item.fms_name else rest

-- `x or y` for names
abbrev pub or_name : Text → Text → Text
or_name [] y = y
or_name (c ∷ x) y = c ∷ x

-- `parts[2]` is a domain of the classifier.
unfoldable pub hierarchical_name : Text → Text → Dict (Dict ClassifierItem) → Text
unfolding exact_item prefix_item
hierarchical_name logical_domain [] domains = []
hierarchical_name logical_domain (c ∷ item_candidate) domains =
    elim (lookup logical_domain domains) [
      | none ↦ []
      | some items ↦
          or_name (exact_item (c ∷ item_candidate) items) (prefix_item (c ∷ item_candidate) items)
    ]

-- `parts[2]` is a key of some domain: the first such decides.
unfoldable pub flat_name : Text → Dict (Dict ClassifierItem) → Text
flat_name logical_domain [] = []
flat_name logical_domain ((_, group) ∷ domains) =
    let rest = flat_name logical_domain domains in
    elim (lookup logical_domain group) [ none ↦ rest | some item ↦ item.fms_name ]

unfoldable pub resolve_fms_name : ClassifierConfig → Text → Text → Text
unfolding hierarchical_name flat_name
resolve_fms_name classifier logical_domain item_candidate =
    or_name (hierarchical_name logical_domain item_candidate classifier.domains)
      (flat_name logical_domain classifier.domains)

-- One row: `none` where the loop goes on with `continue`.
unfoldable pub admit_name : PendingRow → Text → Text → Option IngestibleFile
admit_name row logical_domain [] = none
admit_name row logical_domain (c ∷ fms_name) =
    if (c ∷ fms_name) == giant_bypass_domain_contract
    then none
    else some (record {
      s3_key = row.s3_key;
      xxhash = row.xxhash;
      file_size_bytes = row.file_size_bytes;
      logical_domain = logical_domain;
      fms_name = c ∷ fms_name;
    })

abbrev pub admit_parts : ClassifierConfig → PendingRow → List Text → Option IngestibleFile
admit_parts classifier row (_ ∷ _ ∷ logical_domain ∷ item_candidate ∷ _) =
    admit_name row logical_domain (resolve_fms_name classifier logical_domain item_candidate)
admit_parts classifier row _ = none

unfoldable pub admit_row : ClassifierConfig → PendingRow → Option IngestibleFile
unfolding admit_name resolve_fms_name
admit_row classifier row = admit_parts classifier row (split b'/' (strip b'/' row.s3_key))

abbrev pub Groups : Type 0
Groups = Dict (List IngestibleFile)

-- `ingestible_by_contract.setdefault(fms_name, []).append(file_obj)`
unfoldable pub append_to_group : IngestibleFile → Groups → Groups
append_to_group f groups = elim (lookup f.fms_name groups) [
  | none ↦ insert f.fms_name (f ∷ []) groups
  | some fs ↦ insert f.fms_name (fs ++ (f ∷ [])) groups
]

unfoldable pub add_admitted : Option IngestibleFile → Groups → Groups
unfolding append_to_group
add_admitted none groups = groups
add_admitted (some f) groups = append_to_group f groups

unfoldable pub group_rows : ClassifierConfig → List PendingRow → Groups → Groups
unfolding admit_row add_admitted
group_rows classifier [] groups = groups
group_rows classifier (row ∷ rows) groups =
    group_rows classifier rows (add_admitted (admit_row classifier row) groups)

unfoldable pub get_incremental_files_to_ingest : ClassifierConfig → Dict LandingFile → Log → Groups
unfolding group_rows fetch_incremental_files_from_db
get_incremental_files_to_ingest classifier registry log =
    group_rows classifier (fetch_incremental_files_from_db registry log) []
