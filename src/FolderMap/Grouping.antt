-- ===== src/FolderMap/Grouping.antt =====
-- The folders of an environment by domain, and the `KeyError` of a domain that is not in the order.
use mathlib.Core.List.{append_assoc, append-nil}
use mathlib.Core.Path.{subst}
use entsoe_pipeline.Prelude.{
  ◌≡◌, refl, sym, ap, ◌∙◌, ◌⊎◌, ℕ, Bool, true, false, ◌&&◌, Option, none, some, List, [], ◌∷◌, ◌++◌,
  filter, filter-append, Text, text, ◌==◌, eq_iff, eq_refl, contains, Dict, lookup, lookup-insert,
  lookup-nil, insert, if◌then◌else◌, Bool-cases, inl, inr, arith,
}
use entsoe_pipeline.Prelude.Texts.Order.{sorted}
use entsoe_pipeline.Classifier.{ClassifierConfig, classify_folder}
use entsoe_pipeline.Api.Listing.{Listed, listed}
use entsoe_pipeline.FolderMap.{
  add_empty, append_folder, then_groups, group_folders, sort_groups, fetched, key_error,
  environment_of, with_groups, with_listing, fetch_environment_metadata,
}

add_empty-lookup :
    (d : Text) (ds : List Text) (groups : Dict (List Text))
    → lookup d (add_empty ds groups) ≡ (if contains ds d then some [] else lookup d groups)
unfolding add_empty contains
add_empty-lookup d [] groups = refl
add_empty-lookup d (x ∷ ds) groups =
    add_empty-lookup d ds (insert x [] groups) ∙ ground (arith, lookup-insert x d [] groups)

abbrev sorted_some : Option (List Text) → Option (List Text)
sorted_some none = none
sorted_some (some folders) = some (sorted folders)

sorted_some-if :
    (b : Bool) (folders : List Text)
    → sorted_some (if b then some folders else none) ≡ (if b then some (sorted folders) else none)
sorted_some-if true folders = refl
sorted_some-if false folders = refl

sort_groups-lookup :
    (d : Text) (groups : Dict (List Text))
    → lookup d (sort_groups groups) ≡ sorted_some (lookup d groups)
unfolding lookup
sort_groups-lookup d [] = refl
sort_groups-lookup d ((k, v) ∷ groups) = elim (Bool-cases (k == d)) [
  | inl e ↦ rw e refl
  | inr e ↦ rw e (sort_groups-lookup d groups)
]

module _ (config : ClassifierConfig) where
  -- The class of every folder is a domain of the order.
  abbrev pub all_known : List Text → Bool
  all_known [] = true
  all_known (f ∷ fs) = contains config.domain_order (classify_folder config f) && all_known fs

  -- What stands under a domain once the folders are grouped.
  abbrev pub group_of : Text → List Text → Option (List Text)
  group_of d folders =
      if contains config.domain_order d
      then some (filter (λ f. classify_folder config f == d) folders)
      else none

  abbrev pub sorted_group : Text → List Text → Option (List Text)
  sorted_group d folders =
      if contains config.domain_order d
      then some (sorted (filter (λ f. classify_folder config f == d) folders))
      else none

  abbrev Holds : List Text → Dict (List Text) → Type 0
  Holds folders groups = (d : Text) → lookup d groups ≡ group_of d folders

  abbrev members : Text → List Text → List Text
  members d = filter (λ f. classify_folder config f == d)

  group_of-known :
      (d : Text) (folders : List Text)
      → contains config.domain_order d ≡ true
      → group_of d folders ≡ some (members d folders)
  group_of-known d folders h = rw h refl

  group_of-other :
      (d f : Text) (done : List Text)
      → (classify_folder config f == d) ≡ false
      → group_of d (done ++ (f ∷ [])) ≡ group_of d done
  group_of-other d f done h =
      ap (λ xs. if contains config.domain_order d then some xs else none)
        (filter-append (λ x. classify_folder config x == d) done (f ∷ [])
          ∙ rw h (append-nil (members d done)))

  group_of-own :
      (f : Text) (done : List Text)
      → contains config.domain_order (classify_folder config f) ≡ true
      → some (members (classify_folder config f) done ++ (f ∷ []))
        ≡ group_of (classify_folder config f) (done ++ (f ∷ []))
  group_of-own f done h =
      rw
        (
          h,
          filter-append (λ x. classify_folder config x == classify_folder config f) done (f ∷ []),
          eq_refl (classify_folder config f),
        )
        refl

  insert-Holds :
      (f : Text) (done : List Text) (groups : Dict (List Text))
      → contains config.domain_order (classify_folder config f) ≡ true
      → Holds done groups
      → Holds (done ++ (f ∷ [])) (
          insert
            (classify_folder config f)
            (members (classify_folder config f) done ++ (f ∷ []))
            groups)
  insert-Holds f done groups known h d =
      let c = classify_folder config f in
      let new = members c done ++ (f ∷ []) in
      lookup-insert c d new groups ∙ elim (Bool-cases (c == d)) [
        | inl same ↦
            ap (λ b. if b then some new else lookup d groups) same
            ∙ group_of-own f done known
            ∙ ap (λ x. group_of x (done ++ (f ∷ []))) ((eq_iff c d).0 same)
        | inr other ↦
            ap (λ b. if b then some new else lookup d groups) other
            ∙ h d
            ∙ sym (group_of-other d f done other)
      ]

  append_folder-found :
      (d f : Text) (folders : List Text) (groups : Dict (List Text))
      → lookup d groups ≡ some folders
      → append_folder d f groups ≡ some (insert d (folders ++ (f ∷ [])) groups)
  unfolding append_folder
  append_folder-found d f folders groups e = rw (e, append_folder) refl

  append_folder-missing :
      (d f : Text) (groups : Dict (List Text))
      → lookup d groups ≡ none
      → append_folder d f groups ≡ none
  unfolding append_folder
  append_folder-missing d f groups e = rw (e, append_folder) refl

  -- Either all is grouped, or the first folder of an unknown domain stops the run.
  abbrev pub Outcome : List Text → List Text → Option (Dict (List Text)) → Type 0
  Outcome done fs o =
      ((all_known fs ≡ true)
        × ((groups : Dict (List Text)) × (o ≡ some groups) × Holds (done ++ fs) groups))
      ⊎ ((all_known fs ≡ false) × (o ≡ none))

  extended :
      (f : Text) (done fs : List Text) (o : Option (Dict (List Text))) (groups : Dict (List Text))
      → contains config.domain_order (classify_folder config f) ≡ true
      → o ≡ some groups
      → Outcome (done ++ (f ∷ [])) fs (group_folders config fs groups)
      → Outcome done (f ∷ fs) (then_groups o (group_folders config fs))
  extended f done fs o groups known e (inl (all, (gs, made, holds))) = inl (
    rw known all,
    (
      gs,
      ap (λ x. then_groups x (group_folders config fs)) e ∙ made,
      subst (λ xs. Holds xs gs) (append_assoc done (f ∷ []) fs) holds,
    ),
  )
  extended f done fs o groups known e (inr (some_unknown, raised)) =
      inr (rw known some_unknown, ap (λ x. then_groups x (group_folders config fs)) e ∙ raised)

  group_folders-Outcome :
      (done fs : List Text) (groups : Dict (List Text))
      → Holds done groups
      → Outcome done fs (group_folders config fs groups)
  unfolding group_folders
  group_folders-Outcome done [] groups h =
      inl (refl, (groups, refl, λ d. rw (append-nil done) (h d)))
  group_folders-Outcome done (f ∷ fs) groups h =
      let c = classify_folder config f in
      elim (Bool-cases (contains config.domain_order c)) [
        | inl known ↦
            let made =
              append_folder-found c f (members c done) groups (h c ∙ group_of-known c done known) in
            extended f done fs (append_folder c f groups) _ known made
              (group_folders-Outcome (done ++ (f ∷ [])) fs _ (insert-Holds f done groups known h))
        | inr unknown ↦
            let missing = append_folder-missing c f groups (h c ∙ rw unknown refl) in
            inr (rw unknown refl, ap (λ o. then_groups o (group_folders config fs)) missing)
      ]

  fetched_with :
      (ls : Text → Listed Text) (env_name : Text) (active legacy : List Text) (m n : ℕ)
      → ls (text "/TP_export/") ≡ listed active m
      → ls (text "/TP_Legacy_Publications/") ≡ listed legacy n
      → fetch_environment_metadata config ls env_name
        ≡ with_groups env_name active legacy
            (group_folders config active (add_empty config.domain_order []))
  unfolding fetch_environment_metadata
  fetched_with ls env_name active legacy m n a l =
      ap
        (λ x. with_listing x (λ fs. with_listing (ls (text "/TP_Legacy_Publications/")) (λ gs.
          with_groups env_name fs gs (group_folders config fs (add_empty config.domain_order [])))))
        a
      ∙ ap
          (λ x. with_listing x (λ gs.
            with_groups env_name active gs
              (group_folders config active (add_empty config.domain_order []))))
          l

  -- Where the listings return, the metadata has under each domain of the order the sorted folders of
  -- that class, and nothing under another domain; or some folder is of a class outside the order,
  -- and the collection ends with a `KeyError`.
  pub fetch_environment_metadata_lem :
      (ls : Text → Listed Text) (env_name domain : Text) (active legacy : List Text) (m n : ℕ)
      → ls (text "/TP_export/") ≡ listed active m
      → ls (text "/TP_Legacy_Publications/") ≡ listed legacy n
      → ((all_known active ≡ true)
          × ((groups : Dict (List Text)) × (fetch_environment_metadata config ls env_name
                ≡ fetched (environment_of env_name active legacy groups))
              × (lookup domain (sort_groups groups) ≡ sorted_group domain active)))
        ⊎ ((all_known active ≡ false) × (fetch_environment_metadata config ls env_name ≡ key_error))
  fetch_environment_metadata_lem ls env_name domain active legacy m n a l =
      elim (group_folders-Outcome [] active (add_empty config.domain_order []) start) [
        | inl (known, (groups, made, holds)) ↦ inl (
          known,
          (
            groups,
            fetched_with ls env_name active legacy m n a l
                ∙ ap (with_groups env_name active legacy) made,
            sort_groups-lookup domain groups ∙ ap sorted_some (holds domain) ∙ sorted_some-if _ _,
          ),
        )
        | inr (unknown, raised) ↦ inr (
          unknown,
          fetched_with ls env_name active legacy m n a l
              ∙ ap (with_groups env_name active legacy) raised,
        )
      ]
    where
      start : Holds [] (add_empty config.domain_order [])
      start d =
          add_empty-lookup d config.domain_order []
          ∙ ap (λ o. if contains config.domain_order d then some [] else o) (lookup-nil d)
