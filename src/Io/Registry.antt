-- ===== src/Io/Registry.antt =====
-- src/entsoe_pipeline/io/core/idempotency.py and io/core/s3_operations.py: the table
-- landing_files_registry, whose primary key is `s3_key`, and the landing bucket.
use entsoe_pipeline.Prelude.{
  ℕ, Bool, false, ◌&&◌, Option, none, some, List, Text, text, ◌==◌, replace_char, Dict, lookup,
  insert,
}

pub record LandingFile : Type 0 where
  pub file_name : Text
  pub file_id : Text
  pub file_size_bytes : ℕ
  pub last_updated_timestamp : ℕ
  pub xxhash : Text
  pub downloaded_at : ℕ
  pub run_id : Text

-- What the store of the pipeline holds: the registry, the landing bucket, the local directory.
pub record Store : Type 0 where
  pub registry : Dict LandingFile
  pub bucket : Dict (List ℕ)
  pub tmp_files : Dict (List ℕ)

-- `datetime.fromisoformat` and `datetime.strptime` give an instant, or `none` for a `ValueError`.
module _ (from_iso strp_time : Text → Option ℕ) where
  unfoldable pub parse_iso_datetime : Text → Option ℕ
  parse_iso_datetime dt_str =
      let cleaned = replace_char b'Z' (text "+00:00") dt_str in
      elim (from_iso cleaned) [ some t ↦ some t | none ↦ strp_time cleaned ]

  -- A naive timestamp is read as UTC by these functions. The update of a present row writes every
  -- column, and so equals the insertion of one. `none` is a `ValueError`, before anything is written.
  unfoldable pub register_downloaded_file :
      Text → Text → Text → ℕ → Text → Text → Text → ℕ → Dict LandingFile → Option (Dict LandingFile)
  unfolding parse_iso_datetime
  register_downloaded_file s3_key file_name file_id file_size_bytes last_updated_timestamp xxhash
        run_id now registry =
      elim (parse_iso_datetime last_updated_timestamp) [
        | none ↦ none
        | some last_updated_dt ↦ some (
            insert s3_key
              (record {
                file_name = file_name;
                file_id = file_id;
                file_size_bytes = file_size_bytes;
                last_updated_timestamp = last_updated_dt;
                xxhash = xxhash;
                downloaded_at = now;
                run_id = run_id;
              })
              registry)
      ]

-- `head_answers key` is false where the request fails for any other reason than a missing object.
unfoldable pub s3_object_exists : (Text → Bool) → Text → Dict (List ℕ) → Bool
s3_object_exists head_answers s3_key bucket = elim (lookup s3_key bucket) [
  | none ↦ false
  | some _ ↦ head_answers s3_key
]

unfoldable pub check_idempotency : (Text → Bool) → Text → Text → Store → Bool
unfolding s3_object_exists
check_idempotency head_answers s3_key expected_hash s = elim (lookup s3_key s.registry) [
  | none ↦ false
  | some row ↦ row.xxhash == expected_hash && s3_object_exists head_answers s3_key s.bucket
]
