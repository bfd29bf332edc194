-- ===== src/Io/Sync/Repeat.antt =====
-- A second run after one without errors transfers nothing.
pub mod Work
pub mod Clean
use entsoe_pipeline.Prelude.{
  ℕ, ◌+◌, ◌≡◌, Bool, true, false, Option, none, some, List, [], ◌∷◌, Text, ◌==◌, eq_iff, length,
  All, lookup, lookup-insert, lookup-insert_self, eq_refl, ◌≢◌, ◌&&◌, if◌then◌else◌, arith,
  Option-cases, inl, inr, refl,
}
use entsoe_pipeline.Io.Schema.{TargetMapping}
use entsoe_pipeline.Io.Remote.{FileMeta, verify_free_disk_space}
use entsoe_pipeline.Io.Registry.{Store, LandingFile, check_idempotency, register_downloaded_file}
use entsoe_pipeline.Io.Sync.{
  Services, State, Progress, done, raised, skip, and_then, has_id, expected_hash, is_already_synced,
  s3_key_of, downloaded, record_file, upload_file, transfer_file, sync_file,
}
use entsoe_pipeline.Io.Sync.Step.{upload_file-present}

module _ (w : Services) where
  -- Whatever the step of this file does next, it is to skip it.
  pub record Settled (m : TargetMapping) (f : FileMeta) (s : Store) : Type 0 where
    pub fits :
        has_id f ≡ true
        → verify_free_disk_space (w.free_bytes (s3_key_of m f)) f.original_size ≡ true
    pub selects : has_id f ≡ true → w.select_works (s3_key_of m f) ≡ true
    pub synced :
        has_id f ≡ true
        → check_idempotency w.head_answers (s3_key_of m f) (expected_hash w f) s ≡ true

  pub sync_file-Settled :
      (m : TargetMapping) (f : FileMeta) (s : State)
      → Settled m f s.store
      → sync_file w m f s ≡ (done, skip s)
  unfolding sync_file
  sync_file-Settled m f s h = ground (arith, h.fits, h.selects, h.synced)

module _ (w : Services) (heads : (k : Text) → w.head_answers k ≡ true) (m : TargetMapping)
    (f : FileMeta) where
  record_file_synced :
      (s t : State)
      → lookup (s3_key_of m f) s.store.bucket ≢ none
      → record_file w m f s ≡ (done, t)
      → check_idempotency w.head_answers (s3_key_of m f) (expected_hash w f) t.store ≡ true
  unfolding record_file check_idempotency
  record_file_synced s t up h = grind (arith, lookup-insert_self, eq_refl, heads (s3_key_of m f))

  and_then_synced :
      (p : Progress × State) (t : State)
      → (p.0 ≡ done → lookup (s3_key_of m f) p.1.store.bucket ≢ none)
      → and_then p (record_file w m f) ≡ (done, t)
      → check_idempotency w.head_answers (s3_key_of m f) (expected_hash w f) t.store ≡ true
  and_then_synced (done, s) t up h = record_file_synced s t (up refl) h
  and_then_synced (raised, s) t up h = cc

  transfer_file_synced :
      (s t : State)
      → transfer_file w m f s ≡ (done, t)
      → check_idempotency w.head_answers (s3_key_of m f) (expected_hash w f) t.store ≡ true
  unfolding transfer_file
  transfer_file_synced s t h = elim (Option-cases (downloaded w m f)) [
    | inl e ↦ cc (rw (e, transfer_file) at h)
    | inr (b, e) ↦
        and_then_synced (upload_file w m f b s) t (upload_file-present w m f b s)
          (rw (e, transfer_file) at h)
  ]

  -- A step that does not raise leaves its file settled.
  pub Settled-sync_file : (s t : State) → sync_file w m f s ≡ (done, t) → Settled w m f t.store
  unfolding sync_file
  Settled-sync_file s t h = record {
    fits = ground arith;
    selects = ground arith;
    synced = ground (arith, transfer_file_synced s t);
  }

-- Two files with one key have one fingerprint.
abbrev pub Agrees : Services → TargetMapping × FileMeta → TargetMapping × FileMeta → Type 0
Agrees w (m, f) (n, g) = s3_key_of m f ≡ s3_key_of n g → expected_hash w f ≡ expected_hash w g

module _ (w : Services) (m n : TargetMapping) (f g : FileMeta)
    (agrees : Agrees w (m, f) (n, g)) where
  abbrev is_synced : Store → Bool
  is_synced s = check_idempotency w.head_answers (s3_key_of m f) (expected_hash w f) s

  record_file_keeps :
      (s : State) → is_synced s.store ≡ true → is_synced (record_file w n g s).1.store ≡ true
  unfolding record_file check_idempotency
  record_file_keeps s h =
      grind
        (arith, lookup-insert, eq_iff (s3_key_of n g) (s3_key_of m f), eq_refl (expected_hash w f))

  upload_file_keeps :
      (b : List ℕ) (s : State)
      → is_synced s.store ≡ true
      → is_synced (upload_file w n g b s).1.store ≡ true
  unfolding upload_file check_idempotency
  upload_file_keeps b s h =
      ground (arith, lookup-insert (s3_key_of n g) (s3_key_of m f) b s.store.bucket)

  and_then_keeps :
      (p : Progress × State)
      → is_synced p.1.store ≡ true
      → is_synced (and_then p (record_file w n g)).1.store ≡ true
  and_then_keeps (done, t) h = record_file_keeps t h
  and_then_keeps (raised, t) h = h

  transfer_file_keeps :
      (s : State) → is_synced s.store ≡ true → is_synced (transfer_file w n g s).1.store ≡ true
  unfolding transfer_file
  transfer_file_keeps s h = elim (Option-cases (downloaded w n g)) [
    | inl e ↦ rw (e, transfer_file) h
    | inr (b, e) ↦
        rw (e, transfer_file) (and_then_keeps (upload_file w n g b s) (upload_file_keeps b s h))
  ]

  sync_file_keeps :
      (s : State) → is_synced s.store ≡ true → is_synced (sync_file w n g s).1.store ≡ true
  unfolding sync_file
  sync_file_keeps s h = ground (arith, transfer_file_keeps s h)

  -- A settled file stays settled under the step of another one.
  pub sync_file-Settled_other :
      (s : State) → Settled w m f s.store → Settled w m f (sync_file w n g s).1.store
  sync_file-Settled_other s h = record {
    fits = h.fits;
    selects = h.selects;
    synced = λ id. sync_file_keeps s (h.synced id);
  }
