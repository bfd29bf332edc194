-- ===== src/Lakehouse/Tables/Files.antt =====
-- The number of files of a write.
use native.Mathlib.Nat.{div-mul-le_self, lt-div-mul-add}
use entsoe_pipeline.Prelude.{ℕ, zero, suc, ◌+◌, ◌*◌, ◌/◌, ◌≤◌, ◌<◌, max, arith}
use entsoe_pipeline.Lakehouse.Tables.{Spark, LakehouseParquetCodecConfig, num_files_for}

-- `n` files of `size` bytes for `raw` bytes: one at least, no more than are filled but for a single one,
-- and one more would not be filled.
abbrev pub Between : ℕ → ℕ → ℕ → Type 0
Between size raw n = (1 ≤ n) × (n * size ≤ max size raw) × (raw < (n + 1) * size)

max-Between : (size raw q : ℕ) → q * size ≤ raw → raw < q * size + size → Between size raw (max 1 q)
max-Between size raw zero h k = (ground arith, ground (arith, h, k), ground (arith, h, k))
max-Between size raw (suc q) h k = (ground arith, ground (arith, h, k), ground (arith, h, k))

-- For a target size that is not zero, the raw bytes are spread over at least one file and over no
-- more files than hold five times the target each, but for a single file; and one file more would
-- be too many.
pub num_files_for_lem :
    (spark : Spark) (config : LakehouseParquetCodecConfig) (target raw : ℕ)
    → 0 < target
    → Between (target * 5) raw (num_files_for spark config target raw)
unfolding num_files_for
num_files_for_lem spark config target raw h =
    let size = target * 5 in
    let positive : 0 < size = omega (arith, h) in
    max-Between size raw (raw / size) (div-mul-le_self raw size) (lt-div-mul-add positive)
