-- ===== src/Lakehouse/Generator/Registered.antt =====
-- What a generation registers, and when it ends with an exception.
use entsoe_pipeline.Prelude.{
  ◌≡◌, refl, sym, ap, ◌∙◌, Bool, true, false, not, ◌&&◌, ◌||◌, Option, none, some, List, [], ◌∷◌,
  any, Text, ◌==◌, eq_iff, Dict, lookup, lookup-insert, if◌then◌else◌, Bool-cases, inl, inr, arith,
}
use entsoe_pipeline.Lakehouse.Contracts.{
  FmsPublicationSchema, StructField, build_spark_schema_from_fms,
}
use entsoe_pipeline.Lakehouse.Generator.{
  SchemaReader, Overrides, is_technical, register, technical_fields, samples_to_process, build,
  built, process_endpoint, process_endpoints, process_domains, then_process, run_schema_generation,
}
use entsoe_pipeline.Lakehouse.Generator.Samples.{
  some_with, domain_with, sample_with, samples-domain_with,
}

if_true {ℓ} : {A : Type ℓ} {b : Bool} (x y : A) → b ≡ true → (if b then x else y) ≡ x
if_true x y h = rw h refl

if_false {ℓ} : {A : Type ℓ} {b : Bool} (x y : A) → b ≡ false → (if b then x else y) ≡ y
if_false x y h = rw h refl

abbrev pub lacks : Option FmsPublicationSchema → Bool
lacks none = true
lacks (some publication) = false

module _ (reader : SchemaReader) (publications : Dict FmsPublicationSchema) (landing_bucket : Text)
    (overrides : Overrides) where
  -- A data endpoint without a contract
  abbrev pub is_unknown : Text → Bool
  is_unknown endpoint = not (is_technical endpoint) && lacks (lookup endpoint publications)

  -- After samples of which `unknown` says that one has no contract, and `sampled` that one is of
  -- the endpoint
  abbrev pub Registered :
      Text → Bool → Bool → Dict (List StructField) → Option (Dict (List StructField)) → Type 0
  Registered endpoint unknown sampled before none = unknown ≡ true
  Registered endpoint unknown sampled before (some registry) =
      (unknown ≡ false)
      × (lookup endpoint registry ≡ (
          if sampled then build reader (lookup endpoint publications) else lookup endpoint before))

  module _ (e : Text) (data_endpoint : is_technical e ≡ false) where
    differs : (q : Text) → is_technical q ≡ true → (q == e) ≡ false
    differs q h = elim (Bool-cases (q == e)) [
      | inl i ↦ absurd (cc (h, data_endpoint, (eq_iff q e).0 i))
      | inr i ↦ i
    ]

    register-Registered :
        (q : Text) (fields : Option (List StructField)) (r : Dict (List StructField))
        → is_technical q ≡ true
        → Registered e (is_unknown q) (q == e) r (some (register reader q fields r))
    register-Registered q none r h = (rw h refl, rw (differs q h) refl)
    register-Registered q (some fields) r h =
        (rw h refl, lookup-insert q e fields r ∙ rw (differs q h) refl)

    built-Registered :
        (q : Text) (publication : Option FmsPublicationSchema) (r : Dict (List StructField))
        → is_technical q ≡ false
        → lookup q publications ≡ publication
        → Registered e
            (is_unknown q)
            (q == e)
            r
            (built reader publications landing_bucket overrides q (build reader publication) r)
    built-Registered q none r h k = rw (h, k) refl
    built-Registered q (some publication) r h k = (
      rw (h, k) refl,
      lookup-insert q e (build_spark_schema_from_fms publication) r
          ∙ chosen (q == e) (eq_iff q e).0,
    )
      where
        chosen :
            (b : Bool)
            → (b ≡ true → q ≡ e)
            → (if b then some (build_spark_schema_from_fms publication) else lookup e r)
              ≡ (if b then build reader (lookup e publications) else lookup e r)
        chosen true f = ap (build reader) (sym k ∙ ap (λ x. lookup x publications) (f refl))
        chosen false f = refl

    process-technical :
        (q k : Text) (r : Dict (List StructField))
        → is_technical q ≡ true
        → process_endpoint reader publications landing_bucket overrides q k r
          ≡ some (
              register reader q
                (technical_fields reader publications landing_bucket overrides q k)
                r)
    unfolding process_endpoint
    process-technical q k r h = if_true _ _ h

    process-data :
        (q k : Text) (r : Dict (List StructField))
        → is_technical q ≡ false
        → process_endpoint reader publications landing_bucket overrides q k r
          ≡ built reader publications landing_bucket overrides q
              (build reader (lookup q publications))
              r
    unfolding process_endpoint
    process-data q k r h = if_false _ _ h

    process_endpoint-Registered :
        (q k : Text) (r : Dict (List StructField))
        → Registered e
            (is_unknown q)
            (q == e)
            r
            (process_endpoint reader publications landing_bucket overrides q k r)
    process_endpoint-Registered q k r = elim (Bool-cases (is_technical q)) [
      | inl h ↦ rw (process-technical q k r h) (
          register-Registered q (technical_fields reader publications landing_bucket overrides q k)
            r h)
      | inr h ↦ rw (process-data q k r h) (built-Registered q (lookup q publications) r h refl)
    ]

    Registered-then :
        (u s v t : Bool) (r r1 : Dict (List StructField)) (o : Option (Dict (List StructField)))
        → Registered e u s r (some r1)
        → Registered e v t r1 o
        → Registered e (u || v) (s || t) r o
    Registered-then u s v t r r1 none h k = ground (arith, k)
    Registered-then u s v t r r1 (some r2) h k = (ground (arith, h.0, k.0), k.1 ∙ either s t h.1)
      where
        either :
            (s t : Bool)
            → lookup e r1 ≡ (if s then build reader (lookup e publications) else lookup e r)
            → (if t then build reader (lookup e publications) else lookup e r1)
              ≡ (if s || t then build reader (lookup e publications) else lookup e r)
        either true true l = refl
        either true false l = l
        either false true l = refl
        either false false l = l

    abbrev Registry : Type 0
    Registry = Dict (List StructField)

    then_process-Registered :
        (u s v t : Bool) (r : Registry) (o : Option Registry) (f : Registry → Option Registry)
        → Registered e u s r o
        → ((r1 : Registry) → Registered e v t r1 (f r1))
        → Registered e
            (u || v)
            (s || t)
            r
            (then_process reader publications landing_bucket overrides o f)
    then_process-Registered u s v t r none f h k = ground (arith, h)
    then_process-Registered u s v t r (some r1) f h k = Registered-then u s v t r r1 (f r1) h (k r1)

    abbrev same : Text → Bool
    same q = q == e

    process_endpoints-Registered :
        (endpoints : Dict Text) (r : Registry)
        → Registered e
            (some_with is_unknown endpoints)
            (some_with same endpoints)
            r
            (process_endpoints reader publications landing_bucket overrides endpoints r)
    unfolding process_endpoints
    process_endpoints-Registered [] r = (refl, refl)
    process_endpoints-Registered ((q, k) ∷ endpoints) r =
        then_process-Registered (is_unknown q) (q == e) (some_with is_unknown endpoints)
          (some_with same endpoints) r
          (process_endpoint reader publications landing_bucket overrides q k r)
          (process_endpoints reader publications landing_bucket overrides endpoints)
          (process_endpoint-Registered q k r) (process_endpoints-Registered endpoints)

    process_domains-Registered :
        (domains : Dict (Dict Text)) (r : Registry)
        → Registered e
            (domain_with is_unknown domains)
            (domain_with same domains)
            r
            (process_domains reader publications landing_bucket overrides domains r)
    unfolding process_domains
    process_domains-Registered [] r = (refl, refl)
    process_domains-Registered ((d, endpoints) ∷ domains) r =
        then_process-Registered (some_with is_unknown endpoints) (some_with same endpoints)
          (domain_with is_unknown domains) (domain_with same domains) r
          (process_endpoints reader publications landing_bucket overrides endpoints r)
          (process_domains reader publications landing_bucket overrides domains)
          (process_endpoints-Registered endpoints r) (process_domains-Registered domains)

    -- For an endpoint that is not technical: the generation ends with an exception only where one of
    -- the sampled keys is of an endpoint that is not technical and has no contract. Where it ends with
    -- a registry there is no such key, and the entry of the endpoint is the schema built from its
    -- contract if a key of it is sampled, and the entry from before if none is.
    pub run_schema_generation-Registered :
        (s3_keys : List Text) (registry : Dict (List StructField))
        → Registered e
            (any (sample_with is_unknown) s3_keys)
            (any (sample_with same) s3_keys)
            registry
            (run_schema_generation reader publications landing_bucket overrides s3_keys registry)
    unfolding run_schema_generation
    run_schema_generation-Registered s3_keys registry =
        rw
          (
            sym (samples-domain_with is_unknown s3_keys []),
            sym (samples-domain_with same s3_keys []),
          )
          (process_domains-Registered (samples_to_process s3_keys []) registry)
