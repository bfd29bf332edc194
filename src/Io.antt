-- ===== src/Io.antt =====
-- src/entsoe_pipeline/io: the transfer of selected files from the platform to the S3 landing zone.
pub mod Fingerprint
pub mod Checklist
pub mod Schema
pub mod Remote
pub mod Registry
pub mod Sync
