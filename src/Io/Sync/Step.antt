-- ===== src/Io/Sync/Step.antt =====
-- One file of the synchronisation: what a step does to the store and to the counters.
use entsoe_pipeline.Prelude.{
  ℕ, ◌+◌, ◌≡◌, ◌≢◌, true, none, some, Text, eq_iff, refl, inl, inr, Option-cases, lookup,
  lookup-insert, lookup-insert_self, List, [], erase-insert, lookup-nil, arith,
}
use entsoe_pipeline.Io.Schema.{TargetMapping}
use entsoe_pipeline.Io.Remote.{FileMeta}
use entsoe_pipeline.Io.Registry.{Store, LandingFile}
use entsoe_pipeline.Io.Sync.{
  tmp_name, and_then, downloaded, Services, State, Progress, done, raised, s3_key_of, record_file,
  upload_written, upload_file, transfer_file, sync_file, LocalWrite, written, write_failed,
}

-- Every registered key has an object in the bucket.
pub record IsBacked (s : Store) : Type 0 where
  pub object :
      (k : Text) (r : LandingFile) → lookup k s.registry ≡ some r → lookup k s.bucket ≢ none

module _ (w : Services) (m : TargetMapping) (f : FileMeta) where
  record_file-IsBacked :
      (s : State)
      → lookup (s3_key_of m f) s.store.bucket ≢ none
      → IsBacked s.store
      → IsBacked (record_file w m f s).1.store
  unfolding record_file
  record_file-IsBacked s up h = record {
    object = λ k r e. grind (arith, lookup-insert, h.object k r, eq_iff (s3_key_of m f) k);
  }

  upload_written-IsBacked :
      (b : List ℕ) (o : LocalWrite) (s : State)
      → IsBacked s.store
      → IsBacked (upload_written w m f b o s).1.store
  upload_written-IsBacked b (write_failed none) s h = h
  upload_written-IsBacked b (write_failed (some c)) s h = record { object = h.object }
  upload_written-IsBacked b written s h = record {
    object =
        λ k r e. ground (arith, lookup-insert (s3_key_of m f) k b s.store.bucket, h.object k r);
  }

  upload_file-IsBacked :
      (b : List ℕ) (s : State) → IsBacked s.store → IsBacked (upload_file w m f b s).1.store
  unfolding upload_file
  upload_file-IsBacked b s h = upload_written-IsBacked b (w.write_bytes (s3_key_of m f) b) s h

  upload_written-present :
      (b : List ℕ) (o : LocalWrite) (s : State)
      → (upload_written w m f b o s).0 ≡ done
      → lookup (s3_key_of m f) (upload_written w m f b o s).1.store.bucket ≢ none
  upload_written-present b (write_failed content) s h = absurd (cc h)
  upload_written-present b written s h =
      ground (arith, lookup-insert_self (s3_key_of m f) b s.store.bucket)

  pub upload_file-present :
      (b : List ℕ) (s : State)
      → (upload_file w m f b s).0 ≡ done
      → lookup (s3_key_of m f) (upload_file w m f b s).1.store.bucket ≢ none
  unfolding upload_file
  upload_file-present b s h = upload_written-present b (w.write_bytes (s3_key_of m f) b) s h

  and_then-IsBacked :
      (p : Progress × State)
      → IsBacked p.1.store
      → (p.0 ≡ done → lookup (s3_key_of m f) p.1.store.bucket ≢ none)
      → IsBacked (and_then p (record_file w m f)).1.store
  and_then-IsBacked (done, t) h up = record_file-IsBacked t (up refl) h
  and_then-IsBacked (raised, t) h up = h

  transfer_file-IsBacked : (s : State) → IsBacked s.store → IsBacked (transfer_file w m f s).1.store
  unfolding transfer_file
  transfer_file-IsBacked s h = elim (Option-cases (downloaded w m f)) [
    | inl e ↦ rw (e, transfer_file) h
    | inr (b, e) ↦
        rw (e, transfer_file)
          (and_then-IsBacked (upload_file w m f b s) (upload_file-IsBacked b s h)
            (upload_file-present b s))
  ]

  pub sync_file-IsBacked : (s : State) → IsBacked s.store → IsBacked (sync_file w m f s).1.store
  unfolding sync_file
  sync_file-IsBacked s h = ground (arith, transfer_file-IsBacked s h)

  -- A step never raises the count of errors, and one that ends counts its file once.
  pub sync_file_counts :
      (s : State)
      → ((sync_file w m f s).1.metrics.errors ≡ s.metrics.errors)
        × ((sync_file w m f s).1.metrics.processed + s.metrics.downloaded
            ≡ s.metrics.processed + (sync_file w m f s).1.metrics.downloaded)
        × ((sync_file w m f s).0 ≡ done
            → (sync_file w m f s).1.metrics.downloaded + (sync_file w m f s).1.metrics.skipped
              ≡ s.metrics.downloaded + s.metrics.skipped + 1)
  unfolding sync_file upload_file record_file
  sync_file_counts s = (ground arith, ground arith, ground arith)

  -- The file can be written as a whole, uploaded and removed.
  abbrev pub IsSmooth : Type 0
  IsSmooth =
      ((b : List ℕ) → w.write_bytes (s3_key_of m f) b ≡ written)
      × (w.upload_works (s3_key_of m f) ≡ true)
      × (w.unlink_works (s3_key_of m f) ≡ true)

  upload_file_tmp :
      (b : List ℕ) (s : State)
      → IsSmooth
      → s.store.tmp_files ≡ []
      → (upload_file w m f b s).1.store.tmp_files ≡ []
  unfolding upload_file
  upload_file_tmp b s up h =
      rw (up.0 b, up.1, up.2)
        (ground (
          arith,
          h,
          erase-insert (tmp_name f.name) b s.store.tmp_files,
          lookup-nil {V = List ℕ} (tmp_name f.name),
        ))

  and_then_tmp :
      (p : Progress × State)
      → p.1.store.tmp_files ≡ []
      → (and_then p (record_file w m f)).1.store.tmp_files ≡ []
  unfolding record_file
  and_then_tmp (done, t) h = ground arith
  and_then_tmp (raised, t) h = h

  transfer_file_tmp :
      (s : State)
      → IsSmooth
      → s.store.tmp_files ≡ []
      → (transfer_file w m f s).1.store.tmp_files ≡ []
  transfer_file_tmp s up h = elim (Option-cases (downloaded w m f)) [
    | inl e ↦ unfold transfer_file in rw (e, transfer_file) h
    | inr (b, e) ↦
        unfold transfer_file in
        rw (e, transfer_file) (and_then_tmp (upload_file w m f b s) (upload_file_tmp b s up h))
  ]

  -- Where the local file and the upload go through, a step leaves no temporary file.
  pub sync_file_tmp :
      (s : State) → IsSmooth → s.store.tmp_files ≡ [] → (sync_file w m f s).1.store.tmp_files ≡ []
  unfolding sync_file
  sync_file_tmp s up h = ground (arith, transfer_file_tmp s up h)
