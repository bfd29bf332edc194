-- ===== src/Refresh/Domains.antt =====
-- The domains that the ingestion script visits, and those that the refresh job does.
use mathlib.Core.Option.{some-injective}
use entsoe_pipeline.Prelude.{
  ◌≤◌, ◌≡◌, ◌⊎◌, inl, inr, refl, sym, ap, ◌∙◌, Bool, true, false, none, some, List, [], ◌∷◌, filter,
  find?, length, Text, text, ◌==◌, eq_iff, contains, lower, if◌then◌else◌, Bool-cases, Option-cases,
  arith,
}
use entsoe_pipeline.Crawler.{FmsTables, CrawlResult, completed, raised}
use entsoe_pipeline.Crawler.Sessions.{World, after_crawl}
use entsoe_pipeline.Refresh.{light_domains, Ages, crawl_domain, crawl_domains}
use entsoe_pipeline.Refresh.Entries.{is_all, is_legacy, selected, named, ingest_domains, ingest_one}

after_crawl-completed : (r : CrawlResult) → after_crawl r completed ≡ r
after_crawl-completed (completed s) = refl
after_crawl-completed (raised s) = refl

pub all_not_legacy : (target : Text) → is_all target ≡ true → is_legacy target ≡ false
unfolding ◌==◌
all_not_legacy target h = ap (λ x. x == text "legacy") ((eq_iff (lower target) (text "all")).0 h)

filter_twice :
    (p q : Text → Bool) (xs : List Text) → filter p (filter q xs) ≡ filter q (filter p xs)
filter_twice p q [] = refl
filter_twice p q (x ∷ xs) = ground (arith, filter_twice p q xs)

filter-absent : (p : Text → Bool) (xs : List Text) → find? p xs ≡ none → filter p xs ≡ []
filter-absent p [] h = refl
filter-absent p (x ∷ xs) h = ground (arith, filter-absent p xs)

single :
    (x : Text) (xs : List Text) (d : Text) → some x ≡ some d → length (x ∷ xs) ≤ 1 → x ∷ xs ≡ d ∷ []
single x [] d h n = ap (λ y. y ∷ []) (some-injective x d h)
single x (y ∷ ys) d h n = ground (arith, n)

pub after_crawl-same :
    (r : CrawlResult) (k l : FmsTables → CrawlResult)
    → ((s : FmsTables) → k s ≡ l s)
    → after_crawl r k ≡ after_crawl r l
after_crawl-same (completed s) k l h = h s
after_crawl-same (raised s) k l h = refl

filter-only :
    (p : Text → Bool) (xs : List Text) (d : Text)
    → find? p xs ≡ some d
    → length (filter p xs) ≤ 1
    → filter p xs ≡ d ∷ []
filter-only p [] d h n = absurd (cc h)
filter-only p (x ∷ xs) d h n = elim (Bool-cases (p x)) [
  | inl e ↦ rw e (single x (filter p xs) d (rw e at h) (rw e at n))
  | inr e ↦ rw e (filter-only p xs d (rw e at h) (rw e at n))
]

module _ (w : World) (ages : Ages) where
  pub ingest_domains-selected :
      (env : Text) (is_test is_force : Bool) (ds : List Text) (s : FmsTables)
      → ingest_domains w ages env is_test is_force ds s
        ≡ crawl_domains w ages env is_force
            (if is_test then filter (contains light_domains) ds else ds)
            s
  unfolding ingest_domains crawl_domains
  ingest_domains-selected env false is_force [] s = refl
  ingest_domains-selected env true is_force [] s = refl
  ingest_domains-selected env false is_force (d ∷ ds) s =
      after_crawl-same (crawl_domain w ages env is_force d s)
        (ingest_domains w ages env false is_force ds) (crawl_domains w ages env is_force ds)
        (ingest_domains-selected env false is_force ds)
  ingest_domains-selected env true is_force (d ∷ ds) s =
      elim (Bool-cases (contains light_domains d)) [
        | inl light ↦
            rw (light, ingest_domains)
              (after_crawl-same (crawl_domain w ages env is_force d s)
                (ingest_domains w ages env true is_force ds)
                (crawl_domains w ages env is_force (filter (contains light_domains) ds))
                (ingest_domains-selected env true is_force ds))
        | inr heavy ↦ rw (heavy, ingest_domains) (ingest_domains-selected env true is_force ds s)
      ]

  -- What the script does with one name, and the job with the domains of that name
  abbrev pub Agree :
      (env : Text) (is_force : Bool) (r : CrawlResult) (ds : List Text) (s : FmsTables) → Type 0
  Agree env is_force r ds s =
      let job = after_crawl (crawl_domains w ages env is_force ds s) completed in
      (r ≡ job) ⊎ ((r ≡ raised s) × (job ≡ completed s))

  one_domain :
      (env : Text) (is_force : Bool) (d : Text) (s : FmsTables)
      → after_crawl (crawl_domains w ages env is_force (d ∷ []) s) completed
        ≡ crawl_domain w ages env is_force d s
  unfolding crawl_domains
  one_domain env is_force d s =
      after_crawl-completed (crawl_domains w ages env is_force (d ∷ []) s)
      ∙ after_crawl-completed (crawl_domain w ages env is_force d s)

  -- The domain of a name, in the test mode only if it is light.
  abbrev kept : Bool → List Text → List Text
  kept is_test ds = if is_test then filter (contains light_domains) ds else ds

  named-selected :
      (is_test : Bool) (target : Text)
      → named w ages target (selected w ages is_test)
        ≡ kept is_test (named w ages target w.config.domain_order)
  named-selected false target = refl
  named-selected true target =
      filter_twice (λ d. lower d == lower target) (contains light_domains) w.config.domain_order

  found-Agree :
      (env : Text) (is_test is_force : Bool) (d : Text) (s : FmsTables)
      → Agree env is_force
          (ingest_one w ages env is_test is_force (some d) s)
          (kept is_test (d ∷ []))
          s
  unfolding crawl_domains
  found-Agree env false is_force d s = inl (sym (one_domain env is_force d s))
  found-Agree env true is_force d s = elim (Bool-cases (contains light_domains d)) [
    | inl light ↦ inl (rw light (sym (one_domain env is_force d s)))
    | inr heavy ↦ inr (rw heavy refl, rw heavy refl)
  ]

  pub ingest_one-Agree :
      (env : Text) (is_test is_force : Bool) (target : Text) (s : FmsTables)
      → length (named w ages target w.config.domain_order) ≤ 1
      → Agree env is_force
          (ingest_one w ages env is_test is_force
            (find? (λ d. lower d == lower target) w.config.domain_order)
            s)
          (named w ages target (selected w ages is_test))
          s
  unfolding crawl_domains
  ingest_one-Agree env is_test is_force target s n =
      let p = λ (d : Text). lower d == lower target in
      let order = w.config.domain_order in
      elim (Option-cases (find? p order)) [
        | inl e ↦
            let none_left : kept is_test (named w ages target order) ≡ [] =
              ap (kept is_test) (filter-absent p order e) ∙ kept-nil is_test in
            inr (rw e refl, rw (named-selected is_test target, none_left) refl)
        | inr (d, e) ↦
            rw (e, named-selected is_test target, filter-only p order d e n)
              (found-Agree env is_test is_force d s)
      ]
    where
      kept-nil : (b : Bool) → kept b [] ≡ []
      kept-nil true = refl
      kept-nil false = refl
