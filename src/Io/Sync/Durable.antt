-- ===== src/Io/Sync/Durable.antt =====
-- What a whole run of the synchronisation keeps.
use entsoe_pipeline.Prelude.{
  ℕ, true, ◌≡◌, refl, Option, none, some, List, [], ◌∷◌, Text, Dict, Option-cases, inl, inr, arith,
}
use mathlib.Core.Path.{subst}
use mathlib.Core.Option.{some-injective}
use entsoe_pipeline.Io.Checklist.{Selection, DomainsConfig, extract_active_folders}
use entsoe_pipeline.Io.Schema.{TargetMapping, resolve_target_mappings}
use entsoe_pipeline.Io.Remote.{FileMeta, select_files_to_sync}
use entsoe_pipeline.Io.Registry.{Store}
use entsoe_pipeline.Io.Sync.{
  Services, State, Progress, done, raised, and_then, handle_errors, sync_file, sync_files,
  sync_listed, sync_mapping, sync_mappings, sync_active_domains, sync_active_folders, initial,
  s3_key_of, written,
}
use entsoe_pipeline.Io.Sync.Step.{IsBacked, sync_file-IsBacked, sync_file_counts, sync_file_tmp}

-- A predicate on states that the steps keep, and that counting an error does not touch.
module _ (w : Services) (P : State → Type 0)
    (step : (m : TargetMapping) (f : FileMeta) (s : State) → P s → P (sync_file w m f s).1)
    (failed : (s : State) → P s → P (handle_errors (raised, s))) where
  sync_files_induction :
      (m : TargetMapping) (fs : List FileMeta) (s : State) → P s → P (sync_files w m fs s).1
  unfolding sync_files
  sync_files_induction m [] s h = h
  sync_files_induction m (f ∷ fs) s h =
      chained (sync_file w m f s) (step m f s h) (sync_files_induction m fs)
    where
      chained :
          (p : Progress × State)
          → P p.1
          → ((t : State) → P t → P (sync_files w m fs t).1)
          → P (and_then p (sync_files w m fs)).1
      chained (done, t) ht rest = rest t ht
      chained (raised, t) ht rest = ht

  handle_errors_induction : (p : Progress × State) → P p.1 → P (handle_errors p)
  handle_errors_induction (done, t) h = h
  handle_errors_induction (raised, t) h = failed t h

  sync_listed_induction :
      (m : TargetMapping) (o : Option (List FileMeta)) (s : State) → P s → P (sync_listed w m o s)
  unfolding sync_listed
  sync_listed_induction m none s h = failed s h
  sync_listed_induction m (some fs) s h =
      handle_errors_induction (sync_files w m fs s) (sync_files_induction m fs s h)

  sync_mapping_induction : (m : TargetMapping) (s : State) → P s → P (sync_mapping w m s)
  unfolding sync_mapping
  sync_mapping_induction m =
      sync_listed_induction m (select_files_to_sync w.list_folder w.extensions m)

  pub sync_mappings_induction :
      (ms : List TargetMapping) (s : State) → P s → P (sync_mappings w ms s)
  unfolding sync_mappings
  sync_mappings_induction [] s h = h
  sync_mappings_induction (m ∷ ms) s h =
      sync_mappings_induction ms (sync_mapping w m s) (sync_mapping_induction m s h)

  sync_active_folders_induction :
      (env_name : Text) (active : Dict Selection) (schema : List Text) (store : Store) (t : State)
      → P (initial w store)
      → sync_active_folders w env_name active schema store ≡ some t
      → P t
  unfolding sync_active_folders
  sync_active_folders_induction env_name [] schema store t h e = subst P (cc e) h
  sync_active_folders_induction env_name (a ∷ folders) schema store t h e =
      elim (Option-cases (resolve_target_mappings env_name (a ∷ folders) schema)) [
        | inl no_path ↦ cc (rw (no_path, sync_active_folders) at e)
        | inr (ms, found) ↦
            subst P (some-injective _ _ (rw (found, sync_active_folders) at e))
              (sync_mappings_induction ms (initial w store) h)
      ]

  pub sync_active_domains_induction :
      (env_name : Text) (config : DomainsConfig) (schema : List Text) (store : Store) (t : State)
      → P (initial w store)
      → sync_active_domains w env_name config schema store ≡ some t
      → P t
  unfolding sync_active_domains
  sync_active_domains_induction env_name config =
      sync_active_folders_induction env_name (extract_active_folders env_name config)

-- After a run that returns, every registered key has an object in the bucket if this was so before,
-- whichever requests, uploads and writes failed on the way.
pub sync_active_domains-IsBacked :
    (w : Services) (env_name : Text) (config : DomainsConfig) (schema : List Text) (store : Store)
    (t : State)
    → IsBacked store
    → sync_active_domains w env_name config schema store ≡ some t
    → IsBacked t.store
sync_active_domains-IsBacked w =
    sync_active_domains_induction w (λ s. IsBacked s.store) (sync_file-IsBacked w) (λ s h. h)

-- A run counts a file as processed exactly when it counts it as downloaded.
pub sync_active_domains_counts :
    (w : Services) (env_name : Text) (config : DomainsConfig) (schema : List Text) (store : Store)
    (t : State)
    → sync_active_domains w env_name config schema store ≡ some t
    → t.metrics.processed ≡ t.metrics.downloaded
sync_active_domains_counts w env_name config schema store t =
    sync_active_domains_induction w (λ s. s.metrics.processed ≡ s.metrics.downloaded)
      (λ m f s h. omega (arith, sync_file_counts w m f s, h)) (λ s h. h) env_name config schema
      store t refl

-- If every temporary file can be written as a whole and removed, and every upload goes through, a run
-- that returns leaves no temporary file behind: also where downloads, listings or database writes fail.
pub sync_active_domains_tmp :
    (w : Services) (env_name : Text) (config : DomainsConfig) (schema : List Text) (store : Store)
    (t : State)
    → ((k : Text) (b : List ℕ) → w.write_bytes k b ≡ written)
    → ((k : Text) → w.upload_works k ≡ true)
    → ((k : Text) → w.unlink_works k ≡ true)
    → store.tmp_files ≡ []
    → sync_active_domains w env_name config schema store ≡ some t
    → t.store.tmp_files ≡ []
sync_active_domains_tmp w env_name config schema store t write up unlink =
    sync_active_domains_induction w (λ s. s.store.tmp_files ≡ [])
      (λ m f s.
        sync_file_tmp w m f s (write (s3_key_of m f), up (s3_key_of m f), unlink (s3_key_of m f)))
      (λ s h. h) env_name config schema store t
