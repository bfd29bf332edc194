-- ===== src/Prelude/Texts/Decimals.antt =====
-- The decimal digits of a number determine it.
use Prim.Native.Nat.{ℕ, zero, suc, ◌+◌, ◌-◌, ◌*◌, ◌/◌, ◌%◌, ◌≤◌, ◌<◌}
use mathlib.Core.Path.{◌≡◌, sym, ap, ◌∙◌}
use mathlib.Core.Logic.{inl, inr}
use mathlib.Core.List.{[], ◌∷◌}
use native.Mathlib.Omega.{arith}
use entsoe_pipeline.Prelude.Tests.{ltb, ltb→lt, Bool-cases}
use entsoe_pipeline.Prelude.Texts.{Text, digits_on, decimal}

abbrev value : ℕ → Text → ℕ
value acc [] = acc
value acc (c ∷ s) = value (acc * 10 + (c - b'0')) s

value-digits_on :
    (fuel n : ℕ) (rest : Text) → n < fuel → value 0 (digits_on fuel n rest) ≡ value n rest
unfolding digits_on
value-digits_on zero n rest h = ground arith
value-digits_on (suc fuel) n rest h = elim (Bool-cases (ltb n 10)) [
  | inl small ↦ rw (small, digits_on) (ap (λ k. value k rest) (omega (arith, ltb→lt n 10 small)))
  | inr large ↦
      rw (large, digits_on)
        (value-digits_on fuel (n / 10) ((b'0' + n % 10) ∷ rest) (ground (arith, h, large))
          ∙ ap (λ k. value k rest) (omega arith))
]

value-decimal : (n : ℕ) → value 0 (decimal n) ≡ n
unfolding decimal
value-decimal n = value-digits_on (suc n) n [] (omega arith)

pub decimal_injective : (m n : ℕ) → decimal m ≡ decimal n → m ≡ n
decimal_injective m n e = sym (value-decimal m) ∙ ap (value 0) e ∙ value-decimal n

-- Every code point of the text is a digit.
abbrev pub IsDigits : Text → Type 0
IsDigits [] = Unit
IsDigits (c ∷ s) = (b'0' ≤ c) × (c ≤ b'9') × IsDigits s

digits_on-IsDigits : (fuel n : ℕ) (rest : Text) → IsDigits rest → IsDigits (digits_on fuel n rest)
unfolding digits_on
digits_on-IsDigits zero n rest h = h
digits_on-IsDigits (suc fuel) n rest h =
    let shown : IsDigits ((b'0' + n % 10) ∷ rest) = (omega arith, omega arith, h) in
    elim (Bool-cases (ltb n 10)) [
      | inl small ↦ rw (small, digits_on) shown
      | inr large ↦
          rw (large, digits_on) (digits_on-IsDigits fuel (n / 10) ((b'0' + n % 10) ∷ rest) shown)
    ]

pub decimal-IsDigits : (n : ℕ) → IsDigits (decimal n)
unfolding decimal
decimal-IsDigits n = digits_on-IsDigits (suc n) n [] tt
