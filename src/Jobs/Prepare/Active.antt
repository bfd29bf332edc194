-- ===== src/Jobs/Prepare/Active.antt =====
-- What the job prepares is active for the landing job.
use entsoe_pipeline.Prelude.{
  ◌≡◌, refl, true, List, [], ◌∷◌, any, All, All-append, All-weaken, Text, text, ◌==◌, eq_refl, Dict,
  insert, Bool-cases, inl, inr, arith,
}
use entsoe_pipeline.Io.Checklist.{Selection, disabled, enabled, other_value, files, RootDirectory}
use entsoe_pipeline.JobConfig.Readback.{not_disabled, holds, root_holds}
use entsoe_pipeline.Jobs.Prepare.{
  is_selected, selected_folders, insert_selected, add_selected, active_folders_by_domain,
  active_legacy_folders,
}

is_selected-not_disabled : (v : Selection) → is_selected v ≡ true → not_disabled v ≡ true
is_selected-not_disabled disabled h = h
is_selected-not_disabled enabled h = refl
is_selected-not_disabled other_value h = absurd (cc h)
is_selected-not_disabled (files ns) h = refl

selected_folders-holds :
    (folders : Dict Selection) → All (λ f. holds f folders ≡ true) (selected_folders folders)
unfolding selected_folders
selected_folders-holds [] = tt
selected_folders-holds ((folder, val) ∷ folders) =
    let later =
      All-weaken (λ f. holds f folders ≡ true) (λ f. holds f ((folder, val) ∷ folders) ≡ true)
        (selected_folders folders) (λ f h. ground (arith, h)) (selected_folders-holds folders) in
    elim (Bool-cases (is_selected val)) [
      | inl e ↦ rw e (rw (eq_refl folder, is_selected-not_disabled val e) refl, later)
      | inr e ↦ rw e later
    ]

module _ (A : Text → Type 0) where
  abbrev pub Groups : Dict (List Text) → Type 0
  Groups = All (λ (_, folders). All A folders)

  insert-Groups :
      (domain : Text) (folders : List Text) (d : Dict (List Text))
      → All A folders
      → Groups d
      → Groups (insert domain folders d)
  unfolding insert
  insert-Groups domain folders [] h k = (h, tt)
  insert-Groups domain folders ((j, v) ∷ d) h k = elim (Bool-cases (j == domain)) [
    | inl e ↦ rw e (h, k.1)
    | inr e ↦ rw e (k.0, insert-Groups domain folders d h k.1)
  ]

  insert_selected-Groups :
      (domain : Text) (folders : List Text) (d : Dict (List Text))
      → All A folders
      → Groups d
      → Groups (insert_selected domain folders d)
  insert_selected-Groups domain [] d h k = k
  insert_selected-Groups domain (f ∷ fs) d h k = insert-Groups domain (f ∷ fs) d h k

  add_selected-Groups :
      (domains : Dict (Dict Selection)) (d : Dict (List Text))
      → ((f : Text) → any (λ (_, fs). holds f fs) domains ≡ true → A f)
      → Groups d
      → Groups (add_selected domains d)
  unfolding add_selected
  add_selected-Groups [] d a k = k
  add_selected-Groups ((domain, folders) ∷ domains) d a k =
      add_selected-Groups domains (insert_selected domain (selected_folders folders) d)
        (λ f h. a f (ground (arith, h)))
        (insert_selected-Groups domain (selected_folders folders) d
          (All-weaken (λ f. holds f folders ≡ true) A (selected_folders folders)
            (λ f h. a f (ground (arith, h))) (selected_folders-holds folders))
          k)

  pub active_folders_by_domain-Groups :
      (roots : List RootDirectory) (d : Dict (List Text))
      → ((f : Text) → any (root_holds f) roots ≡ true → A f)
      → Groups d
      → Groups (active_folders_by_domain roots d)
  unfolding active_folders_by_domain
  active_folders_by_domain-Groups [] d a k = k
  active_folders_by_domain-Groups (root ∷ roots) d a k =
      active_folders_by_domain-Groups roots _ (λ f h. a f (ground (arith, h)))
        (elim (Bool-cases (root.name == text "TP_export")) [
          | inl e ↦ rw e (add_selected-Groups root.domains d (λ f h. a f (ground (arith, h))) k)
          | inr e ↦ rw e k
        ])

  pub active_legacy_folders-All :
      (roots : List RootDirectory)
      → ((f : Text) → any (root_holds f) roots ≡ true → A f)
      → All A (active_legacy_folders roots)
  unfolding active_legacy_folders
  active_legacy_folders-All [] a = tt
  active_legacy_folders-All (root ∷ roots) a =
      let rest = active_legacy_folders-All roots (λ f h. a f (ground (arith, h))) in
      All-append A _ (active_legacy_folders roots)
        (elim (Bool-cases (root.name == text "TP_Legacy_Publications")) [
          | inl e ↦ rw e (
              All-weaken (λ f. holds f root.folders ≡ true) A (selected_folders root.folders)
                (λ f h. a f (ground (arith, h))) (selected_folders-holds root.folders))
          | inr e ↦ rw e tt
        ])
        rest
