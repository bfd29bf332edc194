-- ===== src/Io/Sync.antt =====
-- src/entsoe_pipeline/io/sync.py. A step returns the state also when it raises: what was written
-- before stays written. The outside world is the record `Services`.
pub mod Step
pub mod Durable
pub mod Repeat
use entsoe_pipeline.Prelude.{
  ℕ, ◌+◌, ◌≡◌, Bool, true, false, Option, none, some, List, [], ◌∷◌, ◌++◌, Text, text, strip, Dict,
  insert, erase, if◌then◌else◌,
}
use entsoe_pipeline.Io.Fingerprint.{calculate_idempotency_hash}
use entsoe_pipeline.Io.Checklist.{Selection, DomainsConfig, extract_active_folders}
use entsoe_pipeline.Io.Schema.{TargetMapping, resolve_target_mappings}
use entsoe_pipeline.Io.Remote.{
  FileMeta, Archive, select_files_to_sync, download_fms_file, verify_free_disk_space,
}
use entsoe_pipeline.Io.Registry.{Store, check_idempotency, register_downloaded_file}

-- Writing a local file: all of it, or an exception that leaves what was there, or a truncated file.
pub data LocalWrite : Type 0 where
  written : LocalWrite
  write_failed : Option (List ℕ) → LocalWrite

pub record Services : Type 0 where
  pub list_folder : Text → Text → Option (List FileMeta)
  pub extensions : List Text
  pub post_download : Text → Text → Text → Option Archive
  -- free bytes when the file with this key is checked
  pub free_bytes : Text → ℕ
  pub xxh3_128 : Text → Text
  pub head_answers : Text → Bool
  -- what writing the temporary file of this key comes to, and whether it can be removed
  pub write_bytes : Text → List ℕ → LocalWrite
  pub unlink_works : Text → Bool
  -- whether the upload under this key goes through
  pub upload_works : Text → Bool
  pub from_iso : Text → Option ℕ
  pub strp_time : Text → Option ℕ
  -- whether the database answers the query for this key, and whether it takes the row
  pub select_works : Text → Bool
  pub database_works : Text → Bool
  pub now : ℕ
  pub run_id : Text

pub record Metrics : Type 0 where
  pub processed : ℕ
  pub downloaded : ℕ
  pub skipped : ℕ
  pub errors : ℕ

pub record State : Type 0 where
  pub store : Store
  pub metrics : Metrics

pub data Progress : Type 0 where
  done raised : Progress

abbrev pub skip : State → State
skip s = record s { metrics = record (s.metrics) { skipped = s.metrics.skipped + 1 } }

abbrev pub count_error : State → State
count_error s = record s { metrics = record (s.metrics) { errors = s.metrics.errors + 1 } }

-- `f"{schema_path.strip('/')}/{filename}"`
unfoldable pub s3_key_of : TargetMapping → FileMeta → Text
s3_key_of m f = strip b'/' m.schema_path ++ (b'/' ∷ f.name)

abbrev pub tmp_name : Text → Text
tmp_name filename = text "tmp_" ++ filename

abbrev pub and_then : Progress × State → (State → Progress × State) → Progress × State
and_then (done, s) k = k s
and_then (raised, s) k = (raised, s)

-- The `except` clause of a mapping.
abbrev pub handle_errors : Progress × State → State
handle_errors (done, s) = s
handle_errors (raised, s) = count_error s

abbrev pub no_metrics : Metrics
no_metrics = record { processed = 0; downloaded = 0; skipped = 0; errors = 0 }

abbrev pub has_id : FileMeta → Bool
has_id f = elim f.file_id [ [] ↦ false | _ ∷ _ ↦ true ]

module _ (w : Services) where
  abbrev pub expected_hash : FileMeta → Text
  expected_hash f = calculate_idempotency_hash w.xxh3_128 f.name f.original_size f.last_updated

  -- `register_downloaded_file` and the two counters after it.
  unfoldable pub record_file : TargetMapping → FileMeta → State → Progress × State
  unfolding register_downloaded_file
  record_file m f s =
      let registered =
        register_downloaded_file w.from_iso w.strp_time (s3_key_of m f) f.name f.file_id
          f.original_size f.last_updated (expected_hash f) w.run_id w.now s.store.registry in
      elim registered [
        | none ↦ (raised, s)
        | some registry ↦
            if w.database_works (s3_key_of m f)
            then (
              done,
              record {
                store = record (s.store) { registry = registry };
                metrics = record (s.metrics) {
                  downloaded = s.metrics.downloaded + 1;
                  processed = s.metrics.processed + 1;
                };
              },
            )
            else (raised, s)
      ]

  abbrev pub with_tmp : FileMeta → Option (List ℕ) → State → State
  with_tmp f none s = s
  with_tmp f (some content) s = record s {
    store = record (s.store) { tmp_files = insert (tmp_name f.name) content s.store.tmp_files };
  }

  -- The object is in the bucket before the temporary file is removed.
  abbrev pub upload_written :
      TargetMapping → FileMeta → List ℕ → LocalWrite → State → Progress × State
  upload_written m f csv_data (write_failed content) s = (raised, with_tmp f content s)
  upload_written m f csv_data written s =
      let key = s3_key_of m f in
      let tmp = insert (tmp_name f.name) csv_data s.store.tmp_files in
      let bucket = insert key csv_data s.store.bucket in
      if w.upload_works key
      then if w.unlink_works key
        then (
          done,
          record s {
            store = record (s.store) { bucket = bucket; tmp_files = erase (tmp_name f.name) tmp };
          },
        )
        else (raised, record s { store = record (s.store) { bucket = bucket; tmp_files = tmp } })
      else (raised, record s { store = record (s.store) { tmp_files = tmp } })

  -- The temporary file is written, uploaded and removed; it stays where one of these raises.
  unfoldable pub upload_file : TargetMapping → FileMeta → List ℕ → State → Progress × State
  upload_file m f csv_data s =
      upload_written m f csv_data (w.write_bytes (s3_key_of m f) csv_data) s

  abbrev pub downloaded : TargetMapping → FileMeta → Option (List ℕ)
  downloaded m f = download_fms_file w.post_download m.top_level_folder f.remote_folder f.name

  unfoldable pub transfer_file : TargetMapping → FileMeta → State → Progress × State
  unfolding upload_file record_file download_fms_file
  transfer_file m f s = elim (downloaded m f) [
    | none ↦ (raised, s)
    | some csv_data ↦ and_then (upload_file m f csv_data s) (record_file m f)
  ]

  abbrev pub is_already_synced : TargetMapping → FileMeta → State → Bool
  is_already_synced m f s =
      check_idempotency w.head_answers (s3_key_of m f) (expected_hash f) s.store

  -- The body of the inner loop.
  unfoldable pub sync_file : TargetMapping → FileMeta → State → Progress × State
  unfolding transfer_file check_idempotency verify_free_disk_space
  sync_file m f s =
      if has_id f
      then if verify_free_disk_space (w.free_bytes (s3_key_of m f)) f.original_size
        then if w.select_works (s3_key_of m f)
          then if is_already_synced m f s then (done, skip s) else transfer_file m f s
          else (raised, s)
        else (raised, s)
      else (done, skip s)

  unfoldable pub sync_files : TargetMapping → List FileMeta → State → Progress × State
  unfolding sync_file
  sync_files m [] s = (done, s)
  sync_files m (f ∷ fs) s = and_then (sync_file m f s) (sync_files m fs)

  -- The `try` block of one mapping, from its listing on, and its handler.
  unfoldable pub sync_listed : TargetMapping → Option (List FileMeta) → State → State
  unfolding sync_files
  sync_listed m none s = count_error s
  sync_listed m (some fs) s = handle_errors (sync_files m fs s)

  unfoldable pub sync_mapping : TargetMapping → State → State
  unfolding sync_listed select_files_to_sync
  sync_mapping m = sync_listed m (select_files_to_sync w.list_folder w.extensions m)

  unfoldable pub sync_mappings : List TargetMapping → State → State
  unfolding sync_mapping
  sync_mappings [] s = s
  sync_mappings (m ∷ ms) s = sync_mappings ms (sync_mapping m s)

  abbrev pub initial : Store → State
  initial store = record { store = store; metrics = no_metrics }

  -- `none` where the resolution of the paths raises, which nothing catches here.
  unfoldable pub sync_active_folders : Text → Dict Selection → List Text → Store → Option State
  unfolding sync_mappings resolve_target_mappings
  sync_active_folders env_name [] schema_folders store = some (initial store)
  sync_active_folders env_name (a ∷ folders) schema_folders store =
      elim (resolve_target_mappings env_name (a ∷ folders) schema_folders) [
        | none ↦ none
        | some mappings ↦ some (sync_mappings mappings (initial store))
      ]

  unfoldable pub sync_active_domains : Text → DomainsConfig → List Text → Store → Option State
  unfolding sync_active_folders extract_active_folders
  sync_active_domains env_name domains_config =
      sync_active_folders env_name (extract_active_folders env_name domains_config)
