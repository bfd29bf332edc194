-- ===== src/Lib.antt =====
-- The ENTSO-E FMS pipeline (src/entsoe_pipeline and jobs): files of the File Management System of
-- ENTSO-E are listed, transferred into a landing bucket, registered, and loaded from there into an
-- Iceberg lakehouse; a crawler keeps a database of the FMS metadata.
--
-- The parts and how they meet. The refresh job collects the folders of the FMS by domain into the
-- overview, reports its drift from the classifier, and crawls the folders that are due. The
-- preparation job builds the checklist from a template and the overview, crawls what it selects, and
-- writes the schema of the landing bucket from the crawled folders. The landing job runs
-- `sync_active_domains` for each environment: the checklist gives active folders, the schema gives
-- their paths, each is listed, and every file that is not yet in the registry with its fingerprint is
-- downloaded, uploaded and registered. The staging job reads the registry and the log of attempts,
-- groups the pending files by contract, loads each group, and appends an attempt for each file. The
-- delta crawl reads two logs of the FMS and the database, finds the dirty leaves and crawls those; the
-- full crawl of a domain or a legacy archive visits every folder that is due. Requests to the FMS go
-- through a throttled session, and folders are listed page by page.
--
-- Which file models which part:
--   Io/Fingerprint   src/entsoe_pipeline/api/xxhash.py: calculate_idempotency_hash
--   Io/Checklist     src/entsoe_pipeline/io/core/config_parser.py: extract_active_folders
--   Io/Schema        src/entsoe_pipeline/io/core/path_resolver.py: resolve_target_mappings
--   Io/Remote        src/entsoe_pipeline/io/core/file_selector.py, io/core/fms_operations.py, io/fms.py,
--                    io/core/disk_safety.py
--   Io/Registry      src/entsoe_pipeline/io/core/idempotency.py, io/core/s3_operations.py
--   Io/Sync          src/entsoe_pipeline/io/sync.py: sync_active_domains. Store is what lasts (registry,
--                    bucket, temporary files), State adds the metrics, Services is the world outside.
--   Api/Counter      src/entsoe_pipeline/logger/api_observability.py: ApiRequestCounter
--   Api/Throttler    src/entsoe_pipeline/api/client_side_throttler.py: ThrottledSession
--   Api/Listing      src/entsoe_pipeline/api/ls_fms.py: ls_fms, list_folder_raw_items,
--                    list_folder_raw_items_recursive (Api/Listing/Recursion)
--   Classifier       src/entsoe_pipeline/config/core/classifier.py, fms_metadata/core/domain_classifier.py
--   Lakehouse/Attempts  src/entsoe_pipeline/lakehouse/ingestion_status_db_registry.py and the SQL query
--                    of db/core/query_for_landing_files_pending_integration.py
--   Lakehouse/Gateway   src/entsoe_pipeline/lakehouse/get_files_to_ingest.py
--   Lakehouse/Staging   jobs/staging/ingest_landing_csv_to_lakehouse.py: main
--   Lakehouse/Loading   the same job with its loads executed by Lakehouse/Reader and Lakehouse/Tables
--   Lakehouse/Contracts src/entsoe_pipeline/config/core/entsoe_fms_schemas.py,
--                    spark/entsoe_fms_schemas_mapping.py, lakehouse/core/get_domain_business_keys.py
--   Lakehouse/Reader    src/entsoe_pipeline/spark/landing_csv_reader.py, spark/core/load_raw_csv.py
--   Lakehouse/Names     to_snake_case of landing_csv_reader.py and of iseberg_schema_generator.py
--   Lakehouse/Tables    src/entsoe_pipeline/lakehouse/iceberg_tables.py, add_csv_to_iceberg.py,
--                    core/merge_to_iseberg.py, config/core/lakehouse_parquet_codec.py. Catalog is the
--                    state that Spark keeps: tables, temporary views, and the writes that went through.
--   Lakehouse/Generator src/entsoe_pipeline/spark/core/iseberg_schema_generator.py
--   Delta/Names, Delta/Scan, Delta/Crawl
--                    src/entsoe_pipeline/fms_metadata/core/fms_metadata_delta.py:
--                    run_delta_metadata_refresh, by its steps
--   Landing          src/entsoe_pipeline/fms_metadata/ingestion/landing_bucket_schema.py and
--                    config/config_loader.py: get_landing_bucket_schema. Landing/Synced follows a file
--                    from the crawl of its folder to the gateway.
--   FolderMap        src/entsoe_pipeline/fms_metadata/core/ftp_map_collector.py
--   FolderMap/Parser src/entsoe_pipeline/fms_metadata/utils/overview_parser.py
--   FolderMap/Drift  the reports of ftp_map_collector.py and of fms_metadata/ingestion:
--                    undocumented_folders.py, unseen_publications.py
--   JobConfig        src/entsoe_pipeline/fms_metadata/core/job_config_builder.py
--   Crawler          src/entsoe_pipeline/fms_metadata/core/domain_metadata_crawler.py,
--                    metadata_crawlers_common.py, utils/transformer.py: compile_folder_metadata
--   Crawler/Freshness   src/entsoe_pipeline/fms_metadata/core/fms_metadata_freshness.py
--   Crawler/Folder   src/entsoe_pipeline/fms_metadata/utils/crawler.py, utils/transformer.py
--   Crawler/Sessions src/entsoe_pipeline/fms_metadata/core/domain_metadata_crawler.py,
--                    legacy_metadata_crawler.py: the whole crawls, over the loop of Crawler
--   Refresh          jobs/refresh_fms_metadata.py: refresh_environment_metadata, and
--                    src/entsoe_pipeline/fms_metadata/ingestion/fms_metadata_ingest.py
--   Jobs/Runs        src/entsoe_pipeline/logger/core/runs_tracker.py, logger/runs_logger.py
--   Jobs/Landing     jobs/landing/ingest_my_entsoe_domains.py
--   Jobs/Prepare     jobs/landing/prepare_landing_ingestion.py and
--                    src/entsoe_pipeline/fms_metadata/ingestion/my_entsoe_domains.py
-- The modules below these prove their properties. Prelude holds what all share: Python's str as a list
-- of code points, dict as a list of pairs in insertion order, Boolean tests on native numbers. Tests
-- runs the models at small inputs.
--
-- Conventions. An exception is a value: `none`, or a constructor such as `raised`, and the state
-- reached before it is kept. Answers of the FMS, S3, the database, Spark and the clock are fields of a
-- record of services or parameters, so every failure that the code handles can be chosen. A timestamp
-- is a number. The only loops that are not structural are those of the listings. They run on fuel: one
-- unit for each full page of a folder and one more, since the loop ends at the first page that is not
-- full, and one unit for each level of folders.
--
-- Not modelled: HTTP and the retries of tenacity, S3, SQL and Spark themselves, reading the YAML files,
-- logging, what the preflight probes do (only whether they pass), declarations of the metadata tables,
-- reports, notebooks and infrastructure; the execution of the preparation's crawls on the tables. The
-- rows of a frame are not modelled, only its columns.
mod Prelude
pub mod Io
pub mod Api
pub mod Classifier
pub mod Lakehouse
pub mod Landing
pub mod Delta
pub mod JobConfig
pub mod FolderMap
pub mod Crawler
pub mod Refresh
pub mod Jobs
mod Tests
