-- ===== src/Refresh/Agreement.antt =====
-- The ingestion script beside the refresh job.
use entsoe_pipeline.Prelude.{
  ℕ, ◌≤◌, ◌≡◌, ◌≢◌, ◌⊎◌, inl, inr, refl, sym, Bool, true, false, ◌||◌, some, [], ◌∷◌, find?, length,
  Text, ◌==◌, lower, upper, if◌then◌else◌, Bool-cases,
}
use entsoe_pipeline.Crawler.{FmsTables, completed, raised}
use entsoe_pipeline.Crawler.Sessions.{World, after_crawl}
use entsoe_pipeline.Prelude.Texts.Spaces.{strip_space}
use entsoe_pipeline.Refresh.{Ages, crawl_domains, crawl_legacy}
use entsoe_pipeline.Refresh.Entries.{
  is_all, is_legacy, selected, named, refresh_legacy, refresh_environment_metadata, ingest_one,
  ingest_metadata,
}
use entsoe_pipeline.Refresh.Domains.{
  after_crawl-same, all_not_legacy, ingest_domains-selected, ingest_one-Agree,
}

module _ (w : World) (ages : Ages) where
  -- The script and the job do the same, or the script raises where the job does nothing.
  abbrev pub AgreeOn : Text → Text → Bool → Bool → FmsTables → Type 0
  AgreeOn domain env is_test is_force s =
      (ingest_metadata w ages domain env is_test is_force s
        ≡ refresh_environment_metadata w ages (upper env) is_test is_force (some domain) s)
      ⊎ ((ingest_metadata w ages domain env is_test is_force s ≡ raised s)
          × (refresh_environment_metadata w ages (upper env) is_test is_force (some domain) s
              ≡ completed s))

  visits_legacy :
      (env : Text) (is_test is_force : Bool) (target : Text) (s : FmsTables)
      → (is_all target || is_legacy target) ≡ true
      → refresh_legacy w ages env is_test is_force target s
        ≡ (if is_test then completed s else crawl_legacy w ages env is_force s)
  visits_legacy env is_test is_force target s h = rw h refl

  skips_legacy :
      (env : Text) (is_test is_force : Bool) (target : Text) (s : FmsTables)
      → (is_all target || is_legacy target) ≡ false
      → refresh_legacy w ages env is_test is_force target s ≡ completed s
  skips_legacy env is_test is_force target s h = rw h refl

  for_all :
      (c : ℕ) (cs env : Text) (is_test is_force : Bool) (s : FmsTables)
      → is_all (strip_space (c ∷ cs)) ≡ true
      → AgreeOn (c ∷ cs) env is_test is_force s
  unfolding ingest_metadata refresh_environment_metadata
  for_all c cs env is_test is_force s all =
      let target = strip_space (c ∷ cs) in
      let not_legacy = all_not_legacy target all in
      inl (
        rw
          (
            all,
            not_legacy,
            ingest_domains-selected w ages (upper env) is_test is_force w.config.domain_order s,
          )
          (after_crawl-same (crawl_domains w ages (upper env) is_force (selected w ages is_test) s)
            (λ t. if is_test then completed t else crawl_legacy w ages (upper env) is_force t)
            (refresh_legacy w ages (upper env) is_test is_force target)
            (λ t. sym (visits_legacy (upper env) is_test is_force target t (rw all refl)))))

  for_legacy :
      (c : ℕ) (cs env : Text) (is_test is_force : Bool) (s : FmsTables)
      → is_all (strip_space (c ∷ cs)) ≡ false
      → is_legacy (strip_space (c ∷ cs)) ≡ true
      → AgreeOn (c ∷ cs) env is_test is_force s
  unfolding ingest_metadata refresh_environment_metadata
  for_legacy c cs env is_test is_force s not_all legacy = inl (
      rw (not_all, legacy)
        (sym (
          visits_legacy (upper env) is_test is_force (strip_space (c ∷ cs)) s
            (rw (not_all, legacy) refl))))

  job_for_one :
      (c : ℕ) (cs env : Text) (is_test is_force : Bool) (s : FmsTables)
      → is_all (strip_space (c ∷ cs)) ≡ false
      → is_legacy (strip_space (c ∷ cs)) ≡ false
      → refresh_environment_metadata w ages env is_test is_force (some (c ∷ cs)) s
        ≡ after_crawl
            (crawl_domains w ages env is_force
              (named w ages (strip_space (c ∷ cs)) (selected w ages is_test))
              s)
            completed
  unfolding refresh_environment_metadata
  job_for_one c cs env is_test is_force s not_all not_legacy =
      let target = strip_space (c ∷ cs) in
      rw (not_all, not_legacy)
        (after_crawl-same
          (crawl_domains w ages env is_force (named w ages target (selected w ages is_test)) s)
          (refresh_legacy w ages env is_test is_force target) completed
          (λ t. skips_legacy env is_test is_force target t (rw (not_all, not_legacy) refl)))

  script_for_one :
      (c : ℕ) (cs env : Text) (is_test is_force : Bool) (s : FmsTables)
      → is_all (strip_space (c ∷ cs)) ≡ false
      → is_legacy (strip_space (c ∷ cs)) ≡ false
      → ingest_metadata w ages (c ∷ cs) env is_test is_force s
        ≡ ingest_one w ages
            (upper env)
            is_test
            is_force
            (find? (λ d. lower d == lower (strip_space (c ∷ cs))) w.config.domain_order)
            s
  unfolding ingest_metadata
  script_for_one c cs env is_test is_force s not_all not_legacy = rw (not_all, not_legacy) refl

  for_one :
      (c : ℕ) (cs env : Text) (is_test is_force : Bool) (s : FmsTables)
      → is_all (strip_space (c ∷ cs)) ≡ false
      → is_legacy (strip_space (c ∷ cs)) ≡ false
      → length (named w ages (strip_space (c ∷ cs)) w.config.domain_order) ≤ 1
      → AgreeOn (c ∷ cs) env is_test is_force s
  for_one c cs env is_test is_force s not_all not_legacy n =
      rw
        (
          script_for_one c cs env is_test is_force s not_all not_legacy,
          job_for_one c cs (upper env) is_test is_force s not_all not_legacy,
        )
        (ingest_one-Agree w ages (upper env) is_test is_force (strip_space (c ∷ cs)) s n)

  -- For any name that is not empty and that at most one domain of the classifier has up to case: the
  -- script reaches what the job reaches for the environment in upper case, an exception included; or
  -- it raises at once, leaving the tables as they are, and the job ends having done nothing.
  pub ingest_metadata-AgreeOn :
      (domain env : Text) (is_test is_force : Bool) (s : FmsTables)
      → domain ≢ []
      → length (named w ages (strip_space domain) w.config.domain_order) ≤ 1
      → AgreeOn domain env is_test is_force s
  ingest_metadata-AgreeOn [] env is_test is_force s d n = absurd (d refl)
  ingest_metadata-AgreeOn (c ∷ cs) env is_test is_force s d n =
      elim (Bool-cases (is_all (strip_space (c ∷ cs)))) [
        | inl all ↦ for_all c cs env is_test is_force s all
        | inr not_all ↦ elim (Bool-cases (is_legacy (strip_space (c ∷ cs)))) [
          | inl legacy ↦ for_legacy c cs env is_test is_force s not_all legacy
          | inr not_legacy ↦ for_one c cs env is_test is_force s not_all not_legacy n
        ]
      ]
