-- ===== src/Io/Fingerprint.antt =====
-- src/entsoe_pipeline/api/xxhash.py. The digest function of the `xxhash` package is a parameter.
pub mod Distinct
use entsoe_pipeline.Prelude.{ℕ, ◌++◌, ◌∷◌, Text, decimal}

abbrev pub idempotency_str : Text → ℕ → Text → Text
idempotency_str name size_bytes last_updated =
    name ++ (b'_' ∷ (decimal size_bytes ++ (b'_' ∷ last_updated)))

module _ (xxh3_128 : Text → Text) where
  unfoldable pub calculate_idempotency_hash : Text → ℕ → Text → Text
  calculate_idempotency_hash name size_bytes last_updated =
      xxh3_128 (idempotency_str name size_bytes last_updated)
