-- ===== src/FolderMap/Archives.antt =====
-- Which folders of the legacy root the three archives have.
use entsoe_pipeline.Prelude.{
  ◌≡◌, refl, ap, ◌∙◌, Bool, true, not, ◌&&◌, ◌||◌, Option, none, some, List, [], ◌∷◌, filter, find?,
  Text, text, ◌==◌, eq_iff, contains, if◌then◌else◌, Bool-cases, inl, inr, arith,
}
use entsoe_pipeline.Prelude.Texts.Order.{
  contains-filter, contains-append, contains-sorted_set, count, count-sorted_set, IsOrdered,
  sorted_set-IsOrdered,
}
use entsoe_pipeline.Io.Checklist.{matching_env}
use entsoe_pipeline.Classifier.{ClassifierConfig, LegacyRule}
use entsoe_pipeline.JobConfig.{OverviewRoot, Overview}
use entsoe_pipeline.FolderMap.Parser.{
  folders_read, root_named, in_root, in_environment, in_overview, matches_patterns, rule_for,
  patterns_of, archive_patterns, add_unmatched, add_fallback, matched_folders, archive_folders,
  with_rule, get_legacy_archive_folders,
}

-- Neither pattern list matches.
abbrev pub unmatched : List Text → List Text → Text → Bool
unmatched r2_pats r3_pats f = not (matches_patterns r2_pats f || matches_patterns r3_pats f)

contains-add_unmatched :
    (r2 r3 : List Text) (f x : Text) (matched : List Text)
    → contains (add_unmatched r2 r3 matched x) f
      ≡ (contains matched f || (x == f && unmatched r2 r3 f))
unfolding contains
contains-add_unmatched r2 r3 f x matched =
    ground (arith, contains-append f matched (x ∷ []), eq_iff x f)

contains-add_fallback :
    (r2 r3 : List Text) (f : Text) (matched folders : List Text)
    → contains (add_fallback r2 r3 matched folders) f
      ≡ (contains matched f || (contains folders f && unmatched r2 r3 f))
unfolding contains add_fallback
contains-add_fallback r2 r3 f matched [] = ground arith
contains-add_fallback r2 r3 f matched (x ∷ xs) =
    contains-add_fallback r2 r3 f (add_unmatched r2 r3 matched x) xs
    ∙ ground (arith, contains-add_unmatched r2 r3 f x matched)

in_root-map :
    (root : Option OverviewRoot) (F : List Text → List Text) (all : List Text)
    → in_root root (λ r. r.folders) ≡ folders_read all
    → in_root root (λ r. F r.folders) ≡ folders_read (F all)
in_root-map none F all h = absurd (cc h)
in_root-map (some root) F all h = ap folders_read (ap F (cc h))

in_environment-map :
    (roots : Option (List OverviewRoot)) (name : Text) (F : List Text → List Text) (all : List Text)
    → in_environment roots name (λ r. r.folders) ≡ folders_read all
    → in_environment roots name (λ r. F r.folders) ≡ folders_read (F all)
in_environment-map none name F all h = absurd (cc h)
in_environment-map (some roots) name F all h = in_root-map (root_named name roots) F all h

in_overview-map :
    (overview : Option Overview) (env_name name : Text) (F : List Text → List Text)
    (all : List Text)
    → in_overview overview env_name name (λ r. r.folders) ≡ folders_read all
    → in_overview overview env_name name (λ r. F r.folders) ≡ folders_read (F all)
in_overview-map none env_name name F all h = absurd (cc h)
in_overview-map (some o) env_name name F all h =
    in_environment-map (matching_env env_name o) name F all h

-- Whether an archive has a folder of the root: one of its patterns matches, or it is the first
-- release and no pattern of the other two matches.
abbrev pub has_folder : ClassifierConfig → LegacyRule → Text → Bool
has_folder config rule f =
    matches_patterns rule.patterns f
    || (rule.archive == text "R1_Archives_CSV_XML"
        && unmatched (archive_patterns (text "R2_Archives") config.legacy_rules)
            (archive_patterns (text "R3_Archives") config.legacy_rules) f)

contains-matched_folders :
    (config : ClassifierConfig) (all : List Text) (rule : LegacyRule) (f : Text)
    → contains (matched_folders config all rule) f ≡ (contains all f && has_folder config rule f)
contains-matched_folders config all rule f =
    elim (Bool-cases (rule.archive == text "R1_Archives_CSV_XML")) [
      | inl e ↦ rw e (
          contains-add_fallback (archive_patterns (text "R2_Archives") config.legacy_rules)
            (archive_patterns (text "R3_Archives") config.legacy_rules) f
            (filter (matches_patterns rule.patterns) all) all
          ∙ ground (arith, contains-filter (matches_patterns rule.patterns) f all))
      | inr e ↦ rw e (ground (arith, contains-filter (matches_patterns rule.patterns) f all))
    ]

legacy_read :
    (config : ClassifierConfig) (overview : Option Overview) (archive env_name : Text)
    (all : List Text)
    → in_overview overview env_name (text "TP_Legacy_Publications") (λ r. r.folders)
      ≡ folders_read all
    → get_legacy_archive_folders config overview archive env_name
      ≡ folders_read (with_rule config all (rule_for archive config.legacy_rules))
unfolding get_legacy_archive_folders
legacy_read config overview archive env_name all h =
    in_overview-map overview env_name (text "TP_Legacy_Publications")
      (λ folders. with_rule config folders (rule_for archive config.legacy_rules)) all h

-- Where the legacy root of the environment is read and the archive has a rule, the archive's folders
-- are sorted, and have each folder of the root once if it is the archive's, and no other.
pub get_legacy_archive_folders_lem :
    (config : ClassifierConfig) (overview : Option Overview) (archive env_name folder : Text)
    (all : List Text) (rule : LegacyRule)
    → in_overview overview env_name (text "TP_Legacy_Publications") (λ r. r.folders)
      ≡ folders_read all
    → rule_for archive config.legacy_rules ≡ some rule
    → (folders : List Text) × (get_legacy_archive_folders config overview archive env_name
        ≡ folders_read folders)
      × IsOrdered folders
      × (count folder folders
          ≡ (if contains all folder && has_folder config rule folder then 1 else 0))
get_legacy_archive_folders_lem config overview archive env_name folder all rule h r = (
  archive_folders config all rule,
  legacy_read config overview archive env_name all h ∙ rw r refl,
  sorted_set-IsOrdered _,
  count-sorted_set folder _
      ∙ ap (λ b. if b then 1 else 0) (contains-matched_folders config all rule folder),
)

with_rule-has :
    (config : ClassifierConfig) (all : List Text) (o : Option LegacyRule) (f : Text)
    → contains all f ≡ true
    → matches_patterns (patterns_of o) f ≡ true
    → contains (with_rule config all o) f ≡ true
unfolding matches_patterns
with_rule-has config all none f h m = absurd (cc m)
with_rule-has config all (some rule) f h m =
    contains-sorted_set f (matched_folders config all rule)
    ∙ contains-matched_folders config all rule f
    ∙ rw (h, m) refl

with_rule-in :
    (config : ClassifierConfig) (all : List Text) (o : Option LegacyRule) (f : Text)
    → contains (with_rule config all o) f ≡ true
    → contains all f ≡ true
unfolding contains
with_rule-in config all none f h = absurd (cc h)
with_rule-in config all (some rule) f h = ground (
  arith,
  contains-sorted_set f (matched_folders config all rule),
  contains-matched_folders config all rule f,
)

booleans :
    (arch b c m1 m2 m3 w : Bool)
    → arch ≡ (w && (m1 || not (m2 || m3)))
    → (w ≡ true → m2 ≡ true → b ≡ true)
    → (w ≡ true → m3 ≡ true → c ≡ true)
    → (b ≡ true → w ≡ true)
    → (c ≡ true → w ≡ true)
    → (arch || (b || c)) ≡ w
booleans arch b c m1 m2 m3 w h hb hc kb kc = ground (arith, h, hb, hc, kb, kc)

covered :
    (config : ClassifierConfig) (all : List Text) (rule : LegacyRule) (f : Text)
    (o2 o3 : Option LegacyRule)
    → rule.archive ≡ text "R1_Archives_CSV_XML"
    → o2 ≡ find? (λ r. r.archive == text "R2_Archives") config.legacy_rules
    → o3 ≡ find? (λ r. r.archive == text "R3_Archives") config.legacy_rules
    → (contains (archive_folders config all rule) f
        || (contains (with_rule config all o2) f || contains (with_rule config all o3) f))
      ≡ contains all f
covered config all rule f o2 o3 named two three =
    booleans (contains (archive_folders config all rule) f) (contains (with_rule config all o2) f)
      (contains (with_rule config all o3) f) (matches_patterns rule.patterns f)
      (matches_patterns (patterns_of o2) f) (matches_patterns (patterns_of o3) f) (contains all f)
      (contains-sorted_set f (matched_folders config all rule)
        ∙ contains-matched_folders config all rule f
        ∙ rw ((eq_iff rule.archive (text "R1_Archives_CSV_XML")).1 named, two, three) refl)
      (with_rule-has config all o2 f) (with_rule-has config all o3 f) (with_rule-in config all o2 f)
      (with_rule-in config all o3 f)

-- With a rule for the first release, and rules whose names do not differ from the other two only in
-- case, the three archives together have exactly the folders of the legacy root.
pub get_legacy_archive_folders-covers :
    (config : ClassifierConfig) (overview : Option Overview) (env_name folder : Text)
    (all : List Text) (rule : LegacyRule)
    → in_overview overview env_name (text "TP_Legacy_Publications") (λ r. r.folders)
      ≡ folders_read all
    → rule_for (text "R1_Archives_CSV_XML") config.legacy_rules ≡ some rule
    → rule.archive ≡ text "R1_Archives_CSV_XML"
    → rule_for (text "R2_Archives") config.legacy_rules
      ≡ find? (λ r. r.archive == text "R2_Archives") config.legacy_rules
    → rule_for (text "R3_Archives") config.legacy_rules
      ≡ find? (λ r. r.archive == text "R3_Archives") config.legacy_rules
    → (r1 r2 r3 : List Text) × (get_legacy_archive_folders config overview
          (text "R1_Archives_CSV_XML")
          env_name
        ≡ folders_read r1)
      × (get_legacy_archive_folders config overview (text "R2_Archives") env_name ≡ folders_read r2)
      × (get_legacy_archive_folders config overview (text "R3_Archives") env_name ≡ folders_read r3)
      × ((contains r1 folder || (contains r2 folder || contains r3 folder)) ≡ contains all folder)
get_legacy_archive_folders-covers config overview env_name folder all rule h one named two three = (
  archive_folders config all rule,
  with_rule config all (rule_for (text "R2_Archives") config.legacy_rules),
  with_rule config all (rule_for (text "R3_Archives") config.legacy_rules),
  legacy_read config overview (text "R1_Archives_CSV_XML") env_name all h ∙ rw one refl,
  legacy_read config overview (text "R2_Archives") env_name all h,
  legacy_read config overview (text "R3_Archives") env_name all h,
  covered config all rule folder _ _ named two three,
)
