-- ===== src/Delta.antt =====
-- src/entsoe_pipeline/fms_metadata/core/fms_metadata_delta.py: the incremental crawl of the FMS
-- metadata.
pub mod Names
pub mod Scan
pub mod Crawl
