-- ===== src/FolderMap/Drift/Reports.antt =====
-- The reports of the collection beside those of the two scripts.
use mathlib.Core.List.{append_assoc, append-nil}
use entsoe_pipeline.Prelude.{
  ◌≡◌, refl, sym, ap, ◌∙◌, Bool, true, false, not, Option, none, some, List, [], ◌∷◌, ◌++◌, filter,
  any, Text, ◌==◌, eq_iff, contains, lower, starts_with, Dict, Option-cases, Bool-cases, inl, inr,
  arith,
}
use entsoe_pipeline.Prelude.Texts.Order.{sorted_set, contains-append}
use entsoe_pipeline.Classifier.{ClassifierItem, ClassifierConfig, matches_items}
use entsoe_pipeline.JobConfig.{Overview}
use entsoe_pipeline.FolderMap.Drift.{
  active_folders, first_item, first_domain_item, option_names, domain_items, Drift, add_folder,
  scan_folders, detect_drift, is_matched, generate_undocumented_folders_report, matched_by, collect,
  no_drift, generate_unseen_publications_report, Publication, publications, unseen_publications,
}

abbrev is_none : Option Text → Bool
is_none none = true
is_none (some name) = false

first_item-matches :
    (f : Text) (items : Dict ClassifierItem)
    → is_none (first_item f items) ≡ not (matches_items f items)
unfolding first_item matches_items
first_item-matches f [] = refl
first_item-matches f ((k, item) ∷ items) = ground (arith, first_item-matches f items)

first_domain_item-matches :
    (f : Text) (domains : Dict (Dict ClassifierItem))
    → is_none (first_domain_item f domains)
      ≡ not (any (λ (_, items). matches_items f items) domains)
unfolding first_domain_item
first_domain_item-matches f [] = refl
first_domain_item-matches f ((d, items) ∷ domains) =
    ground (arith, first_item-matches f items, first_domain_item-matches f domains)

scan_folders-undocumented :
    (config : ClassifierConfig) (folders : List Text) (drift : Drift)
    → (scan_folders config folders drift).undocumented_folders
      ≡ drift.undocumented_folders ++ filter (λ f. not (is_matched config f)) folders
unfolding scan_folders
scan_folders-undocumented config [] drift = sym (append-nil drift.undocumented_folders)
scan_folders-undocumented config (f ∷ fs) drift =
    scan_folders-undocumented config fs (add_folder f (first_domain_item f config.domains) drift)
    ∙ added (first_domain_item f config.domains) refl
  where
    added :
        (o : Option Text)
        → first_domain_item f config.domains ≡ o
        → (add_folder f (first_domain_item f config.domains) drift).undocumented_folders
            ++ filter (λ g. not (is_matched config g)) fs
          ≡ drift.undocumented_folders ++ filter (λ g. not (is_matched config g)) (f ∷ fs)
    added none e =
        rw (e, sym (first_domain_item-matches f config.domains), e)
          (append_assoc drift.undocumented_folders (f ∷ []) _)
    added (some n) e = rw (e, sym (first_domain_item-matches f config.domains), e) refl

first_names : ClassifierConfig → List Text → List Text
first_names config [] = []
first_names config (f ∷ fs) =
    option_names (first_domain_item f config.domains) ++ first_names config fs

scan_folders-names :
    (config : ClassifierConfig) (folders : List Text) (drift : Drift)
    → (scan_folders config folders drift).matched_fms_names
      ≡ drift.matched_fms_names ++ first_names config folders
unfolding scan_folders first_names
scan_folders-names config [] drift = sym (append-nil drift.matched_fms_names)
scan_folders-names config (f ∷ fs) drift =
    scan_folders-names config fs (add_folder f (first_domain_item f config.domains) drift)
    ∙ added (first_domain_item f config.domains)
  where
    added :
        (o : Option Text)
        → (add_folder f o drift).matched_fms_names ++ first_names config fs
          ≡ drift.matched_fms_names ++ (option_names o ++ first_names config fs)
    added none = refl
    added (some n) = append_assoc drift.matched_fms_names (n ∷ []) (first_names config fs)

first_domain_item-in :
    (n f : Text) (domains : Dict (Dict ClassifierItem))
    → contains (option_names (first_domain_item f domains)) n ≡ true
    → contains (domain_items f domains) n ≡ true
unfolding first_domain_item domain_items contains
first_domain_item-in n f [] h = h
first_domain_item-in n f ((d, items) ∷ domains) h = elim (Option-cases (first_item f items)) [
  | inl e ↦ rw (e, domain_items) (first_domain_item-in n f domains (rw (e, first_domain_item) at h))
  | inr (name, e) ↦ rw (e, domain_items) (ground (arith, rw (e, first_domain_item) at h))
]

first_names-in :
    (config : ClassifierConfig) (n : Text) (folders : List Text)
    → contains (first_names config folders) n ≡ true
    → contains (matched_by config folders) n ≡ true
unfolding first_names
first_names-in config n [] h = h
first_names-in config n (f ∷ fs) h = ground (
  arith,
  contains-append n (option_names (first_domain_item f config.domains)) (first_names config fs),
  contains-append n (domain_items f config.domains) (matched_by config fs),
  first_domain_item-in n f config.domains,
  first_names-in config n fs,
)

-- The name begins that of some folder.
abbrev pub begins : Text → List Text → Bool
begins n folders = any (λ f. starts_with (lower f) (lower n)) folders

first_item-begins :
    (f n : Text) (items : Dict ClassifierItem)
    → contains (option_names (first_item f items)) n ≡ true
    → starts_with (lower f) (lower n) ≡ true
unfolding first_item contains
first_item-begins f n [] h = absurd (cc h)
first_item-begins f n ((k, item) ∷ items) h =
    elim (Bool-cases (starts_with (lower f) (lower item.fms_name))) [
      | inl e ↦
          let same : (item.fms_name == n) ≡ true = ground (arith, rw (e, first_item) at h) in
          ap (λ x. starts_with (lower f) (lower x)) (sym ((eq_iff item.fms_name n).0 same)) ∙ e
      | inr e ↦ first_item-begins f n items (rw (e, first_item) at h)
    ]

domain_items-begins :
    (f n : Text) (domains : Dict (Dict ClassifierItem))
    → contains (domain_items f domains) n ≡ true
    → starts_with (lower f) (lower n) ≡ true
unfolding domain_items contains
domain_items-begins f n [] h = absurd (cc h)
domain_items-begins f n ((d, items) ∷ domains) h = ground (
  arith,
  contains-append n (option_names (first_item f items)) (domain_items f domains),
  first_item-begins f n items,
  domain_items-begins f n domains,
)

pub matched_by-begins :
    (config : ClassifierConfig) (n : Text) (folders : List Text)
    → contains (matched_by config folders) n ≡ true
    → begins n folders ≡ true
unfolding contains
matched_by-begins config n [] h = absurd (cc h)
matched_by-begins config n (f ∷ fs) h = ground (
  arith,
  contains-append n (domain_items f config.domains) (matched_by config fs),
  domain_items-begins f n config.domains,
  matched_by-begins config n fs,
)

filter-filter :
    (q r : Publication → Bool) (ps : List Publication)
    → ((p : Publication) → q p ≡ true → r p ≡ true)
    → filter q ps ≡ filter q (filter r ps)
filter-filter q r [] h = refl
filter-filter q r (p ∷ ps) h = ground (arith, h p, filter-filter q r ps h)

-- The folders of the overview, as the reports visit them
abbrev pub visited : Overview → List Text
visited overview = sorted_set (active_folders overview)

not_matched :
    (config : ClassifierConfig) (n : Text) (folders : List Text)
    → not (contains (matched_by config folders) n) ≡ true
    → not (contains (first_names config folders) n) ≡ true
not_matched config n folders h = ground (arith, first_names-in config n folders)

pub collect_lem :
    (config : ClassifierConfig) (overview : Overview)
    → ((collect config overview).undocumented_folders
        ≡ generate_undocumented_folders_report config overview)
      × (generate_unseen_publications_report config overview
          ≡ filter
              (λ p. not (contains (matched_by config (visited overview)) p.fms_name))
              (collect config overview).unseen)
unfolding detect_drift generate_undocumented_folders_report generate_unseen_publications_report
    unseen_publications
collect_lem config overview = (
  scan_folders-undocumented config (visited overview) no_drift,
  filter-filter (λ p. not (contains (matched_by config (visited overview)) p.fms_name))
      (λ p.
        not
          (contains (scan_folders config (visited overview) no_drift).matched_fms_names p.fms_name))
      (publications config.domains)
      (λ p h.
        ap (λ xs. not (contains xs p.fms_name))
          (scan_folders-names config (visited overview) no_drift)
        ∙ not_matched config p.fms_name (visited overview) h),
)
