-- ===== src/Api.antt =====
-- src/entsoe_pipeline/api and logger: what stands between the program and the FMS interface.
pub mod Counter
pub mod Throttler
pub mod Listing
