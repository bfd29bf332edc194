-- ===== src/Io/Sync/Repeat/Work.antt =====
-- The files of all mappings in one list, and the second run over it.
use mathlib.Core.Path.{subst, fun_ext}
use mathlib.Core.Option.{get_or}
use entsoe_pipeline.Prelude.{
  ℕ, suc, ◌+◌, ◌≡◌, refl, ap, ◌∙◌, true, List, [], ◌∷◌, ◌++◌, Text, length, All, arith,
}
use entsoe_pipeline.Io.Schema.{TargetMapping}
use entsoe_pipeline.Io.Remote.{FileMeta, select_files_to_sync}
use entsoe_pipeline.Io.Sync.{
  Services, State, Progress, done, raised, skip, and_then, sync_file, sync_files,
}
use entsoe_pipeline.Io.Sync.Step.{sync_file_counts}
use entsoe_pipeline.Io.Sync.Repeat.{
  Settled, Agrees, Settled-sync_file, sync_file-Settled, sync_file-Settled_other,
}

abbrev pub Job : Type 0
Job = TargetMapping × FileMeta

abbrev pub jobs_of : TargetMapping → List FileMeta → List Job
jobs_of m [] = []
jobs_of m (f ∷ fs) = (m, f) ∷ jobs_of m fs

abbrev pub selected : Services → TargetMapping → List FileMeta
selected w m = get_or (select_files_to_sync w.list_folder w.extensions m) []

-- Every file that the listings offer, with its mapping.
abbrev pub all_jobs : Services → List TargetMapping → List Job
all_jobs w [] = []
all_jobs w (m ∷ ms) = jobs_of m (selected w m) ++ all_jobs w ms

-- Files that go to one key have one fingerprint.
abbrev pub IsConsistent : Services → List Job → Type 0
IsConsistent w jobs = All (λ a. All (λ b. Agrees w a b) jobs) jobs

module _ (w : Services) where
  abbrev pub sync_jobs : List Job → State → Progress × State
  sync_jobs [] s = (done, s)
  sync_jobs ((m, f) ∷ jobs) s = and_then (sync_file w m f s) (sync_jobs jobs)

  pub sync_files-eq :
      (m : TargetMapping) (fs : List FileMeta) (s : State)
      → sync_files w m fs s ≡ sync_jobs (jobs_of m fs) s
  unfolding sync_files
  sync_files-eq m [] s = refl
  sync_files-eq m (f ∷ fs) s = ap (and_then (sync_file w m f s)) (fun_ext (sync_files-eq m fs))

  pub sync_jobs-append :
      (as' bs : List Job) (s : State)
      → sync_jobs (as' ++ bs) s ≡ and_then (sync_jobs as' s) (sync_jobs bs)
  sync_jobs-append [] bs s = refl
  sync_jobs-append ((m, f) ∷ as') bs s = chained (sync_file w m f s) (sync_jobs-append as' bs)
    where
      chained :
          (p : Progress × State)
          → ((t : State) → sync_jobs (as' ++ bs) t ≡ and_then (sync_jobs as' t) (sync_jobs bs))
          → and_then p (sync_jobs (as' ++ bs))
            ≡ and_then (and_then p (sync_jobs as')) (sync_jobs bs)
      chained (done, t) rest = rest t
      chained (raised, t) rest = refl

  pub sync_jobs-errors :
      (jobs : List Job) (s : State) → (sync_jobs jobs s).1.metrics.errors ≡ s.metrics.errors
  sync_jobs-errors [] s = refl
  sync_jobs-errors ((m, f) ∷ jobs) s =
      chained (sync_file w m f s) (sync_file_counts w m f s).0 (sync_jobs-errors jobs)
    where
      chained :
          (p : Progress × State)
          → p.1.metrics.errors ≡ s.metrics.errors
          → ((t : State) → (sync_jobs jobs t).1.metrics.errors ≡ t.metrics.errors)
          → (and_then p (sync_jobs jobs)).1.metrics.errors ≡ s.metrics.errors
      chained (done, t) e rest = rest t ∙ e
      chained (raised, t) e rest = e

  abbrev pub IsSettled : State → Job → Type 0
  IsSettled s (m, f) = Settled w m f s.store

  sync_jobs-IsSettled :
      (a : Job) (jobs : List Job) (s : State)
      → All (Agrees w a) jobs
      → IsSettled s a
      → IsSettled (sync_jobs jobs s).1 a
  sync_jobs-IsSettled a [] s c h = h
  sync_jobs-IsSettled (n, g) ((m, f) ∷ jobs) s c h =
      chained (sync_file w m f s) (sync_file-Settled_other w n m g f c.0 s h)
        (λ t. sync_jobs-IsSettled (n, g) jobs t c.1)
    where
      chained :
          (p : Progress × State)
          → IsSettled p.1 (n, g)
          → ((t : State) → IsSettled t (n, g) → IsSettled (sync_jobs jobs t).1 (n, g))
          → IsSettled (and_then p (sync_jobs jobs)).1 (n, g)
      chained (done, t) ht rest = rest t ht
      chained (raised, t) ht rest = ht

  All-tail :
      (b : Job) (bs xs : List Job)
      → All (λ a. All (Agrees w a) (b ∷ bs)) xs
      → All (λ a. All (Agrees w a) bs) xs
  All-tail b bs [] h = tt
  All-tail b bs (x ∷ xs) h = (h.0.1, All-tail b bs xs h.1)

  pub IsSettled-after :
      (heads : (k : Text) → w.head_answers k ≡ true) (jobs : List Job) (s t : State)
      → IsConsistent w jobs
      → sync_jobs jobs s ≡ (done, t)
      → All (IsSettled t) jobs
  IsSettled-after heads [] s t c h = tt
  IsSettled-after heads ((m, f) ∷ jobs) s t c h =
      chained (sync_file w m f s) refl h
        (λ u. IsSettled-after heads jobs u t (All-tail (m, f) jobs jobs c.1))
    where
      chained :
          (p : Progress × State)
          → sync_file w m f s ≡ p
          → and_then p (sync_jobs jobs) ≡ (done, t)
          → ((u : State) → sync_jobs jobs u ≡ (done, t) → All (IsSettled t) jobs)
          → All (IsSettled t) ((m, f) ∷ jobs)
      chained (done, u) e k rest = (
        subst (λ (q : Progress × State). IsSettled q.1 (m, f)) k
            (sync_jobs-IsSettled (m, f) jobs u c.0.1 (Settled-sync_file w heads m f s u e)),
        rest u k,
      )
      chained (raised, u) e k rest = absurd (cc)

  -- The counter of skipped files, raised by `n`.
  abbrev pub skip_many : ℕ → State → State
  skip_many n s = record s { metrics = record (s.metrics) { skipped = s.metrics.skipped + n } }

  skip_many-suc : (n : ℕ) (s : State) → skip_many n (skip s) ≡ skip_many (suc n) s
  skip_many-suc n s = ground arith

  pub sync_jobs_settled :
      (jobs : List Job) (s : State)
      → All (IsSettled s) jobs
      → sync_jobs jobs s ≡ (done, skip_many (length jobs) s)
  sync_jobs_settled [] s h = ground arith
  sync_jobs_settled ((m, f) ∷ jobs) s h =
      ap (λ p. and_then p (sync_jobs jobs)) (sync_file-Settled w m f s h.0)
      ∙ sync_jobs_settled jobs (skip s) h.1
      ∙ ap (λ t. (done, t)) (skip_many-suc (length jobs) s)
