-- ===== src/Lakehouse/Gateway/Admission.antt =====
-- The gate in front of the lakehouse: what a row must be to pass, and what passes.
use mathlib.Core.Path.{subst}
use mathlib.Core.Option.{some-injective}
use entsoe_pipeline.Prelude.{
  ◌≡◌, ◌≢◌, refl, sym, Bool, true, some, List, [], ◌∷◌, any, Text, ◌==◌, eq_iff, eq_refl, split,
  strip, Dict, lookup, arith, Option-cases, inl, inr, Bool-cases,
}
use entsoe_pipeline.Classifier.{ClassifierItem, ClassifierConfig}
use entsoe_pipeline.Lakehouse.Attempts.{PendingRow}
use entsoe_pipeline.Lakehouse.Gateway.{
  IngestibleFile, exact_item, prefix_item, or_name, hierarchical_name, flat_name, resolve_fms_name,
  admit_name, admit_parts, admit_row, giant_bypass_domain_contract,
}

abbrev pub declared_in : Text → Dict ClassifierItem → Bool
declared_in n items = any (λ (_, item). item.fms_name == n) items

-- Some item of the classifier has this name.
abbrev pub is_declared : Text → Dict (Dict ClassifierItem) → Bool
is_declared n domains = any (λ (_, items). declared_in n items) domains

-- A name that is empty or declared.
abbrev Known : Text → Dict (Dict ClassifierItem) → Type 0
Known n domains = (n ≢ []) → is_declared n domains ≡ true

exact_item-declared :
    (c : Text) (items : Dict ClassifierItem)
    → exact_item c items ≢ []
    → declared_in (exact_item c items) items ≡ true
unfolding exact_item
exact_item-declared c [] h = absurd (h refl)
exact_item-declared c ((k, item) ∷ items) h =
    ground (arith, exact_item-declared c items, eq_refl item.fms_name)

prefix_item-declared :
    (c : Text) (items : Dict ClassifierItem)
    → prefix_item c items ≢ []
    → declared_in (prefix_item c items) items ≡ true
unfolding prefix_item
prefix_item-declared c [] h = absurd (h refl)
prefix_item-declared c ((k, item) ∷ items) h =
    ground (arith, prefix_item-declared c items, eq_refl item.fms_name)

lookup-declared :
    (k n : Text) (domains : Dict (Dict ClassifierItem)) (items : Dict ClassifierItem)
    → lookup k domains ≡ some items
    → declared_in n items ≡ true
    → is_declared n domains ≡ true
unfolding lookup
lookup-declared k n [] items e h = cc
lookup-declared k n ((j, v) ∷ domains) items e h = ground (arith, lookup-declared k n domains items)

item-declared :
    (k : Text) (items : Dict ClassifierItem) (item : ClassifierItem)
    → lookup k items ≡ some item
    → declared_in item.fms_name items ≡ true
unfolding lookup
item-declared k [] item e = cc
item-declared k ((j, v) ∷ items) item e =
    ground (arith, item-declared k items item, eq_refl item.fms_name)

or_name-Known :
    (x y : Text) (domains : Dict (Dict ClassifierItem))
    → Known x domains
    → Known y domains
    → Known (or_name x y) domains
or_name-Known [] y domains hx hy = hy
or_name-Known (c ∷ x) y domains hx hy = hx

hierarchical_name-Known :
    (d c : Text) (domains : Dict (Dict ClassifierItem))
    → Known (hierarchical_name d c domains) domains
unfolding hierarchical_name
hierarchical_name-Known d [] domains h = absurd (h refl)
hierarchical_name-Known d (c ∷ cs) domains h = elim (Option-cases (lookup d domains)) [
  | inl e ↦ absurd (h (rw (e, hierarchical_name)))
  | inr (items, e) ↦
      rw (e, hierarchical_name)
        (or_name-Known (exact_item (c ∷ cs) items) (prefix_item (c ∷ cs) items) domains
          (λ ne. lookup-declared d _ domains items e (exact_item-declared (c ∷ cs) items ne))
          (λ ne. lookup-declared d _ domains items e (prefix_item-declared (c ∷ cs) items ne))
          (rw (e, hierarchical_name) at h))
]

flat_name-declared :
    (d n : Text) (domains : Dict (Dict ClassifierItem))
    → flat_name d domains ≡ n
    → n ≢ []
    → is_declared n domains ≡ true
unfolding flat_name
flat_name-declared d n [] e h = absurd (h (sym e))
flat_name-declared d n ((j, group) ∷ domains) e h = elim (Option-cases (lookup d group)) [
  | inl absent ↦ ground (arith, flat_name-declared d n domains (rw (absent, flat_name) at e) h)
  | inr (item, found) ↦
      subst (λ m. is_declared m ((j, group) ∷ domains) ≡ true) (rw (found, flat_name) at e)
        (ground (arith, item-declared d group item found))
]

flat_name-Known :
    (d : Text) (domains : Dict (Dict ClassifierItem)) → Known (flat_name d domains) domains
flat_name-Known d domains = flat_name-declared d (flat_name d domains) domains refl

resolve_fms_name-Known :
    (classifier : ClassifierConfig) (d c : Text)
    → Known (resolve_fms_name classifier d c) classifier.domains
unfolding resolve_fms_name
resolve_fms_name-Known classifier d c =
    or_name-Known (hierarchical_name d c classifier.domains) (flat_name d classifier.domains)
      classifier.domains (hierarchical_name-Known d c classifier.domains)
      (flat_name-Known d classifier.domains)

-- What the gate lets through of a row.
pub record IsAdmitted (classifier : ClassifierConfig) (row : PendingRow) (f : IngestibleFile)
    : Type 0 where
  pub declared : is_declared f.fms_name classifier.domains ≡ true
  pub not_giant : f.fms_name ≢ giant_bypass_domain_contract
  pub same_key : f.s3_key ≡ row.s3_key
  pub same_hash : f.xxhash ≡ row.xxhash
  pub same_size : f.file_size_bytes ≡ row.file_size_bytes

admit_name-IsAdmitted :
    (classifier : ClassifierConfig) (row : PendingRow) (d n : Text) (f : IngestibleFile)
    → Known n classifier.domains
    → admit_name row d n ≡ some f
    → IsAdmitted classifier row f
unfolding admit_name
admit_name-IsAdmitted classifier row d [] f k h = absurd (cc)
admit_name-IsAdmitted classifier row d (c ∷ n) f k h =
    elim (Bool-cases ((c ∷ n) == giant_bypass_domain_contract)) [
      | inl giant ↦ absurd (cc (rw (giant, admit_name) at h))
      | inr other ↦
          subst (IsAdmitted classifier row) (some-injective _ f (rw (other, admit_name) at h))
            (record {
              declared = k (λ e. cc e);
              not_giant = λ e. cc (other, (eq_iff (c ∷ n) giant_bypass_domain_contract).1 e);
              same_key = refl;
              same_hash = refl;
              same_size = refl;
            })
    ]

-- Every row that the gate lets through has a contract that the classifier declares and that is not
-- the bypassed giant one, and keeps its key, fingerprint and size.
pub admit_row-IsAdmitted :
    (classifier : ClassifierConfig) (row : PendingRow) (f : IngestibleFile)
    → admit_row classifier row ≡ some f
    → IsAdmitted classifier row f
unfolding admit_row
admit_row-IsAdmitted classifier row f h = parts (split b'/' (strip b'/' row.s3_key)) h
  where
    parts : (ps : List Text) → admit_parts classifier row ps ≡ some f → IsAdmitted classifier row f
    parts (_ ∷ _ ∷ d ∷ c ∷ _) h' =
        admit_name-IsAdmitted classifier row d (resolve_fms_name classifier d c) f
          (resolve_fms_name-Known classifier d c) h'
    parts [] h' = absurd (cc)
    parts (_ ∷ []) h' = absurd (cc)
    parts (_ ∷ _ ∷ []) h' = absurd (cc)
    parts (_ ∷ _ ∷ _ ∷ []) h' = absurd (cc)
