-- ===== src/Delta/Names.antt =====
-- `strip_extension` and `resolve_exact_fms_folder`.
use entsoe_pipeline.Prelude.{
  ◌-◌, List, [], ◌∷◌, ◌++◌, length, take, Text, text, lower, ends_with, has_substring, split,
  if◌then◌else◌,
}

unfoldable pub strip_first_extension : List Text → Text → Text
strip_first_extension [] filename = filename
strip_first_extension (ext ∷ exts) filename =
    let rest = strip_first_extension exts filename in
    if ends_with (lower filename) ext then take (length filename - length ext) filename else rest

unfoldable pub strip_extension : Text → Text
unfolding strip_first_extension
strip_extension =
    strip_first_extension (text ".zip" ∷ text ".csv" ∷ text ".xml" ∷ text ".xlsx" ∷ [])

-- A name of four or more parts `YYYY_MM_DD_OUT_...`.
unfoldable pub leaf_of_parts : Text → List Text → Text
leaf_of_parts folder_name (year ∷ month ∷ day ∷ out_area ∷ _) =
    folder_name
    ++ (b'/' ∷ year
        ++ (b'_' ∷ month ++ (b'/' ∷ year ++ (b'_' ∷ month ++ (b'_' ∷ day ++ (b'/' ∷ out_area))))))
leaf_of_parts folder_name _ = folder_name

unfoldable pub resolve_exact_fms_folder : Text → Text → Text
unfolding leaf_of_parts
resolve_exact_fms_folder folder_name file_name =
    if has_substring folder_name (text "OfferedTransferCapacitiesContinuousEvolution")
    then leaf_of_parts folder_name (split b'_' file_name)
    else folder_name
