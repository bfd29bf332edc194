-- ===== src/Io/Fingerprint/Distinct.antt =====
-- Files of one name with other sizes or timestamps have other texts to hash.
use mathlib.Core.List.{append_cancel_left}
use entsoe_pipeline.Prelude.{ℕ, ◌≡◌, refl, [], ◌∷◌, ◌++◌, Text, decimal, arith}
use entsoe_pipeline.Prelude.Texts.Decimals.{IsDigits, decimal-IsDigits, decimal_injective}
use entsoe_pipeline.Io.Fingerprint.{idempotency_str}

-- Digits up to the first underscore.
same_digits :
    (s t u v : Text)
    → IsDigits s
    → IsDigits t
    → s ++ (b'_' ∷ u) ≡ t ++ (b'_' ∷ v)
    → (s ≡ t) × (u ≡ v)
same_digits [] [] u v hs ht e = (refl, cc e)
same_digits [] (d ∷ t) u v hs ht e = ground (arith, e, ht)
same_digits (c ∷ s) [] u v hs ht e = ground (arith, e, hs)
same_digits (c ∷ s) (d ∷ t) u v hs ht e =
    let (same, rest) = same_digits s t u v hs.2 ht.2 (cc e) in (cc (e, same), rest)

-- For one name, the text that is hashed determines size and timestamp: if either of them changes, so
-- does the text.
pub idempotency_str_injective :
    (name : Text) (size_bytes other_size : ℕ) (last_updated other_update : Text)
    → idempotency_str name size_bytes last_updated ≡ idempotency_str name other_size other_update
    → (size_bytes ≡ other_size) × (last_updated ≡ other_update)
idempotency_str_injective name size_bytes other_size last_updated other_update e =
    let after_name =
      append_cancel_left name (b'_' ∷ (decimal size_bytes ++ (b'_' ∷ last_updated)))
        (b'_' ∷ (decimal other_size ++ (b'_' ∷ other_update))) e in
    let (digits, update) =
      same_digits (decimal size_bytes) (decimal other_size) last_updated other_update
        (decimal-IsDigits size_bytes) (decimal-IsDigits other_size) (cc after_name) in
    (decimal_injective size_bytes other_size digits, update)
