-- ===== src/Lakehouse.antt =====
-- src/entsoe_pipeline/lakehouse and db, and jobs/staging: files of the landing zone on their way
-- into the Iceberg tables.
pub mod Attempts
pub mod Gateway
pub mod Staging
pub mod Names
pub mod Contracts
pub mod Reader
pub mod Tables
pub mod Generator
pub mod Loading
