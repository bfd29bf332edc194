-- ===== src/Io/Sync/Repeat/Clean.antt =====
-- A run that adds no error does every file, and so a second one has nothing to do.
use mathlib.Core.Option.{get_or}
use entsoe_pipeline.Prelude.{
  ◌≤◌, ◌≡◌, refl, sym, ap, ◌∙◌, true, Option, none, some, List, [], ◌∷◌, Text, length, All, arith,
}
use entsoe_pipeline.Io.Schema.{TargetMapping}
use entsoe_pipeline.Io.Remote.{FileMeta, select_files_to_sync}
use entsoe_pipeline.Io.Sync.{
  Services, State, Progress, done, raised, and_then, handle_errors, sync_files, sync_listed,
  sync_mapping, sync_mappings,
}
use entsoe_pipeline.Io.Sync.Repeat.Work.{
  selected, jobs_of, all_jobs, IsConsistent, sync_jobs, sync_files-eq, sync_jobs-append,
  sync_jobs-errors, IsSettled-after, skip_many, sync_jobs_settled,
}

module _ (w : Services) where
  sync_listed-errors :
      (m : TargetMapping) (o : Option (List FileMeta)) (s : State)
      → s.metrics.errors ≤ (sync_listed w m o s).metrics.errors
  unfolding sync_listed
  sync_listed-errors m none s = omega arith
  sync_listed-errors m (some fs) s =
      handled (sync_files w m fs s) (rw (sync_files-eq w) (sync_jobs-errors w (jobs_of m fs) s))
    where
      handled :
          (p : Progress × State)
          → p.1.metrics.errors ≡ s.metrics.errors
          → s.metrics.errors ≤ (handle_errors p).metrics.errors
      handled (done, t) e = omega arith
      handled (raised, t) e = omega arith

  sync_mappings-errors :
      (ms : List TargetMapping) (s : State)
      → s.metrics.errors ≤ (sync_mappings w ms s).metrics.errors
  unfolding sync_mappings sync_mapping
  sync_mappings-errors [] s = omega arith
  sync_mappings-errors (m ∷ ms) s = omega (
    arith,
    sync_listed-errors m (select_files_to_sync w.list_folder w.extensions m) s,
    sync_mappings-errors ms (sync_mapping w m s),
  )

  -- A mapping that adds no error was listed, and all its files were done.
  sync_listed_clean :
      (m : TargetMapping) (o : Option (List FileMeta)) (s : State)
      → (sync_listed w m o s).metrics.errors ≡ s.metrics.errors
      → (o ≡ some (get_or o []))
        × (sync_jobs w (jobs_of m (get_or o [])) s ≡ (done, sync_listed w m o s))
  unfolding sync_listed
  sync_listed_clean m none s h = absurd (omega arith)
  sync_listed_clean m (some fs) s h = (
    refl,
    handled (sync_files w m fs s) (sync_files-eq w m fs s)
        (rw (sync_files-eq w) (sync_jobs-errors w (jobs_of m fs) s)) h,
  )
    where
      handled :
          (p : Progress × State)
          → p ≡ sync_jobs w (jobs_of m fs) s
          → p.1.metrics.errors ≡ s.metrics.errors
          → (handle_errors p).metrics.errors ≡ s.metrics.errors
          → sync_jobs w (jobs_of m fs) s ≡ (done, handle_errors p)
      handled (done, t) e c h' = sym e
      handled (raised, t) e c h' = absurd (omega arith)

  IsListed : TargetMapping → Type 0
  IsListed m = select_files_to_sync w.list_folder w.extensions m ≡ some (selected w m)

  sync_mappings_clean :
      (ms : List TargetMapping) (s : State)
      → (sync_mappings w ms s).metrics.errors ≡ s.metrics.errors
      → All IsListed ms × (sync_jobs w (all_jobs w ms) s ≡ (done, sync_mappings w ms s))
  unfolding sync_mappings sync_mapping IsListed
  sync_mappings_clean [] s h = (tt, refl)
  sync_mappings_clean (m ∷ ms) s h =
      let o = select_files_to_sync w.list_folder w.extensions m in
      let first = sync_listed_clean m o s (
        omega
          (arith, sync_listed-errors m o s, sync_mappings-errors ms (sync_listed w m o s), h)) in
      let rest = sync_mappings_clean ms (sync_listed w m o s) (
        omega
          (arith, sync_listed-errors m o s, sync_mappings-errors ms (sync_listed w m o s), h)) in
      (
        (first.0, rest.0),
        sync_jobs-append w (jobs_of m (selected w m)) (all_jobs w ms) s
            ∙ ap (λ p. and_then p (sync_jobs w (all_jobs w ms))) first.1
            ∙ rest.1,
      )

  -- Where every mapping is listed and every file is done, the loop over the mappings ends there too.
  sync_mappings-eq :
      (ms : List TargetMapping) (s t : State)
      → All IsListed ms
      → sync_jobs w (all_jobs w ms) s ≡ (done, t)
      → sync_mappings w ms s ≡ t
  unfolding sync_mappings sync_mapping IsListed sync_listed
  sync_mappings-eq [] s t l h = cc
  sync_mappings-eq (m ∷ ms) s t l h =
      chained (sync_files w m (selected w m) s) refl
        (ap (λ p. and_then p (sync_jobs w (all_jobs w ms))) (sync_files-eq w m (selected w m) s)
          ∙ sym (sync_jobs-append w (jobs_of m (selected w m)) (all_jobs w ms) s)
          ∙ h)
        (λ u. sync_mappings-eq ms u t l.1)
    where
      chained :
          (p : Progress × State)
          → sync_files w m (selected w m) s ≡ p
          → and_then p (sync_jobs w (all_jobs w ms)) ≡ (done, t)
          → ((u : State) → sync_jobs w (all_jobs w ms) u ≡ (done, t) → sync_mappings w ms u ≡ t)
          → sync_mappings w (m ∷ ms) s ≡ t
      chained (done, u) e k rest =
          ap (sync_mappings w ms) (ap (λ o. sync_listed w m o s) l.0 ∙ ap handle_errors e)
          ∙ rest u k
      chained (raised, u) e k rest = absurd (cc)

-- If a run over the mappings added no error, a second run on what it left, with the same answers of
-- the platform, moves nothing: it leaves the registry, the bucket and the temporary files as they
-- are, adds no error and no download, and counts every offered file as skipped. Files that go to one
-- key must have one fingerprint, and the existence requests must be answered.
pub sync_mappings_twice :
    (w : Services) (ms : List TargetMapping) (s : State)
    → ((k : Text) → w.head_answers k ≡ true)
    → IsConsistent w (all_jobs w ms)
    → (sync_mappings w ms s).metrics.errors ≡ s.metrics.errors
    → sync_mappings w ms (sync_mappings w ms s)
      ≡ skip_many w (length (all_jobs w ms)) (sync_mappings w ms s)
sync_mappings_twice w ms s heads consistent no_error =
    let clean = sync_mappings_clean w ms s no_error in
    sync_mappings-eq w ms _ _ clean.0 (
      sync_jobs_settled w (all_jobs w ms) _
        (IsSettled-after w heads (all_jobs w ms) s _ consistent clean.1))
