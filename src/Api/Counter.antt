-- ===== src/Api/Counter.antt =====
-- src/entsoe_pipeline/logger/api_observability.py: `ApiRequestCounter`. Its lock makes each method one
-- step.
use entsoe_pipeline.Prelude.{
  ℕ, ◌+◌, ◌≡◌, Text, text, upper, lower, has_substring, if◌then◌else◌, arith,
}

pub record ApiRequestCounter : Type 0 where
  pub iop_export : ℕ
  pub iop_legacy : ℕ
  pub prod_export : ℕ
  pub prod_legacy : ℕ

abbrev pub init : ApiRequestCounter
init = record { iop_export = 0; iop_legacy = 0; prod_export = 0; prod_legacy = 0 }

unfoldable pub increment : Text → Text → ApiRequestCounter → ApiRequestCounter
increment env category c =
    let env_upper = upper env in
    let cat_lower = lower category in
    if has_substring env_upper (text "IOP")
    then (if has_substring cat_lower (text "legacy")
        then record c { iop_legacy = c.iop_legacy + 1 }
        else record c { iop_export = c.iop_export + 1 })
    else (if has_substring cat_lower (text "legacy")
        then record c { prod_legacy = c.prod_legacy + 1 }
        else record c { prod_export = c.prod_export + 1 })

unfoldable pub reset : ApiRequestCounter → ApiRequestCounter
reset c = record { iop_export = 0; iop_legacy = 0; prod_export = 0; prod_legacy = 0 }

abbrev pub requests : ApiRequestCounter → ℕ
requests c = c.iop_export + c.iop_legacy + c.prod_export + c.prod_legacy

pub requests-increment :
    (env category : Text) (c : ApiRequestCounter)
    → requests (increment env category c) ≡ requests c + 1
unfolding increment
requests-increment env category c = ground arith
