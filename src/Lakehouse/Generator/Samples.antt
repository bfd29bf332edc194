-- ===== src/Lakehouse/Generator/Samples.antt =====
-- The endpoints that are sampled, by a property of them.
use entsoe_pipeline.Prelude.{
  ◌≡◌, sym, ap, Bool, true, false, ◌&&◌, ◌||◌, some, List, [], ◌∷◌, any, Text, text, ◌==◌, eq_iff,
  split, ends_with, Dict, lookup, insert, Bool-cases, Option-cases, inl, inr, arith,
}
use entsoe_pipeline.Lakehouse.Contracts.{or_default}
use entsoe_pipeline.Lakehouse.Generator.{with_sample, add_sample, samples_to_process}

-- The endpoint of a sample has the property.
abbrev pub parts_with : (Text → Bool) → Text → List Text → Bool
parts_with p s3_key (environment ∷ root ∷ domain ∷ endpoint ∷ parts) =
    ends_with s3_key (text ".csv") && p endpoint
parts_with p s3_key _ = false

abbrev pub sample_with : (Text → Bool) → Text → Bool
sample_with p s3_key = parts_with p s3_key (split b'/' s3_key)

module _ (p : Text → Bool) where
  abbrev pub some_with : Dict Text → Bool
  some_with [] = false
  some_with ((endpoint, s3_key) ∷ endpoints) = p endpoint || some_with endpoints

  abbrev pub domain_with : Dict (Dict Text) → Bool
  domain_with [] = false
  domain_with ((domain, endpoints) ∷ domains) = some_with endpoints || domain_with domains

  same_endpoint : (q e : Text) → (q == e) ≡ true → p q ≡ p e
  same_endpoint q e h = ap p ((eq_iff q e).0 h)

  some_with-insert :
      (e k : Text) (es : Dict Text) → some_with (insert e k es) ≡ (some_with es || p e)
  unfolding insert
  some_with-insert e k [] = ground arith
  some_with-insert e k ((q, l) ∷ es) = elim (Bool-cases (q == e)) [
    | inl h ↦ rw h (ground (arith, same_endpoint q e h))
    | inr h ↦ rw h (ground (arith, some_with-insert e k es))
  ]

  some_with-lookup :
      (e k : Text) (es : Dict Text) → lookup e es ≡ some k → (some_with es || p e) ≡ some_with es
  unfolding lookup
  some_with-lookup e k [] h = absurd (cc h)
  some_with-lookup e k ((q, l) ∷ es) h = elim (Bool-cases (q == e)) [
    | inl i ↦ ground (arith, same_endpoint q e i)
    | inr i ↦ ground (arith, some_with-lookup e k es (rw i at h))
  ]

  domain_with-insert :
      (d : Text) (es : Dict Text) (ds : Dict (Dict Text)) (b : Bool)
      → some_with es ≡ (some_with (or_default (lookup d ds) []) || b)
      → domain_with (insert d es ds) ≡ (domain_with ds || b)
  unfolding lookup insert
  domain_with-insert d es [] b h = ground (arith, h)
  domain_with-insert d es ((q, old) ∷ ds) b h = elim (Bool-cases (q == d)) [
    | inl i ↦ rw i (ground (arith, rw i at h))
    | inr i ↦ rw i (ground (arith, domain_with-insert d es ds b (rw i at h)))
  ]

  with_sample-domain_with :
      (d e k : Text) (ds : Dict (Dict Text))
      → domain_with (with_sample d e k ds) ≡ (domain_with ds || p e)
  with_sample-domain_with d e k ds =
      let es = or_default (lookup d ds) [] in
      elim (Option-cases (lookup e es)) [
        | inl h ↦ rw h (domain_with-insert d (insert e k es) ds (p e) (some_with-insert e k es))
        | inr (l, h) ↦ rw h (domain_with-insert d es ds (p e) (sym (some_with-lookup e l es h)))
      ]

  add_sample-domain_with :
      (s3_key : Text) (parts : List Text) (ds : Dict (Dict Text))
      → domain_with (add_sample s3_key parts ds) ≡ (domain_with ds || parts_with p s3_key parts)
  add_sample-domain_with s3_key [] ds = ground arith
  add_sample-domain_with s3_key (a ∷ []) ds = ground arith
  add_sample-domain_with s3_key (a ∷ b ∷ []) ds = ground arith
  add_sample-domain_with s3_key (a ∷ b ∷ c ∷ []) ds = ground arith
  add_sample-domain_with s3_key (a ∷ b ∷ c ∷ e ∷ parts) ds =
      elim (Bool-cases (ends_with s3_key (text ".csv"))) [
        | inl h ↦ rw h (with_sample-domain_with c e s3_key ds)
        | inr h ↦ rw h (ground arith)
      ]

  pub samples-domain_with :
      (s3_keys : List Text) (ds : Dict (Dict Text))
      → domain_with (samples_to_process s3_keys ds)
        ≡ (domain_with ds || any (sample_with p) s3_keys)
  unfolding samples_to_process
  samples-domain_with [] ds = ground arith
  samples-domain_with (s3_key ∷ s3_keys) ds =
      let parts = split b'/' s3_key in
      ground (
        arith,
        samples-domain_with s3_keys (add_sample s3_key parts ds),
        add_sample-domain_with s3_key parts ds,
      )
