-- ===== src/Delta/Scan/Missed.antt =====
-- A stale file is missed only behind three files in a row that are up to date.
use native.Mathlib.Nat.{suc-add}
use entsoe_pipeline.Prelude.{
  ℕ, zero, suc, ◌+◌, ◌≤◌, ◌≡◌, refl, sym, ap, ◌∙◌, inl, inr, Bool, true, false, not, ◌&&◌, ◌||◌,
  Option, List, [], ◌∷◌, ◌++◌, any, map, Text, ◌==◌, eq_iff, eq_refl, contains, Dict, lookup,
  Bool-cases, arith,
}
use entsoe_pipeline.Delta.Scan.{
  Dirty, LogRow, LogRecord, Known, mark, mark_uncrawled, never_crawled, is_stale, leaf_of, scan,
  db_files_of, folder_crawled_at, std_record, oce_record, collect, newest_first,
  dirty_folders_to_leafs,
}
use entsoe_pipeline.Delta.Scan.Dirty.{
  is_marked, is_marked_nil, is_marked-mark, calls_for, scan_keeps, scan_sound,
}

abbrev two : List Bool → Bool
two (a ∷ b ∷ _) = a && b
two _ = false

-- Three in a row.
abbrev pub has_three : List Bool → Bool
has_three [] = false
has_three (a ∷ rest) = (a && two rest) || has_three rest

abbrev pub up_to_date : Dict (Option ℕ) → List LogRecord → List Bool
up_to_date db_files = map (λ r. not (is_stale db_files r))

abbrev times : ℕ → List Bool → List Bool
times zero bs = bs
times (suc n) bs = true ∷ times n bs

restart : (c : ℕ) (bs : List Bool) → has_three (times c (false ∷ bs)) ≡ false → has_three bs ≡ false
restart zero bs h = h
restart (suc c) bs h = restart c bs (ground arith)

again : (c : ℕ) (bs : List Bool) → times c (true ∷ bs) ≡ times (c + 1) bs
again zero bs = refl
again (suc c) bs = ap (λ x. true ∷ x) (again c bs) ∙ ap (λ n. times n bs) (sym (suc-add c 1))

too_many : (c : ℕ) (bs : List Bool) → 3 ≤ c → has_three (times c bs) ≡ true
too_many zero bs h = ground arith
too_many (suc zero) bs h = ground arith
too_many (suc (suc zero)) bs h = ground arith
too_many (suc (suc (suc c))) bs h = refl

scan_reaches :
    (db_files : Dict (Option ℕ)) (c : ℕ) (before : List LogRecord) (r : LogRecord)
    (after : List LogRecord) (dirty : Dirty)
    → has_three (times c (up_to_date db_files before)) ≡ false
    → is_stale db_files r ≡ true
    → is_marked (scan db_files c (before ++ (r ∷ after)) dirty) r.folder_name (leaf_of r) ≡ true
unfolding scan
scan_reaches db_files c [] r after dirty quiet stale =
    rw (stale, scan)
      (scan_keeps db_files 0 after (mark r.folder_name (leaf_of r) dirty) r.folder_name (leaf_of r)
        (ground (
          arith,
          is_marked-mark r.folder_name (leaf_of r) r.folder_name (leaf_of r) dirty,
          eq_refl r.folder_name,
          eq_refl (leaf_of r),
        )))
scan_reaches db_files c (q ∷ before) r after dirty quiet stale =
    let marked = scan_reaches db_files 0 before r after (mark q.folder_name (leaf_of q) dirty) in
    let further = scan_reaches db_files (c + 1) before r after dirty in
    elim (Bool-cases (is_stale db_files q)) [
      | inl e ↦ rw (e, scan) (marked (restart c (up_to_date db_files before) (rw e at quiet)) stale)
      | inr e ↦
          let quiet' : has_three (times (c + 1) (up_to_date db_files before)) ≡ false =
            ap has_three (sym (again c (up_to_date db_files before))) ∙ (rw e at quiet) in
          rw (e, scan)
            (ground (arith, further quiet' stale, too_many (c + 1) (up_to_date db_files before)))
    ]

abbrev pub db_files : Known → Dict (Option ℕ)
db_files k = db_files_of k.file_rows []

abbrev pub std_records : Known → List LogRow → List LogRecord
std_records k log = newest_first (collect (std_record k.active_folders) log)

abbrev pub oce_records : Known → List LogRow → List LogRecord
oce_records k log = newest_first (collect (oce_record k.active_folders) log)

-- Some folder of the list was never crawled and is both the folder and the leaf.
abbrev pub uncrawled : Dict (Option ℕ) → Text → Text → List Text → Bool
uncrawled states parent leaf =
    any (λ f. never_crawled (lookup f states) && (f == parent && f == leaf))

mark_uncrawled_lem :
    (states : Dict (Option ℕ)) (fs : List Text) (dirty : Dirty) (q m : Text)
    → is_marked (mark_uncrawled states fs dirty) q m
      ≡ (is_marked dirty q m || uncrawled states q m fs)
unfolding mark_uncrawled
mark_uncrawled_lem states [] dirty q m = ground arith
mark_uncrawled_lem states (f ∷ fs) dirty q m = elim (Bool-cases (never_crawled (lookup f states))) [
  | inl e ↦ rw e (
      ground
        (arith, mark_uncrawled_lem states fs (mark f f dirty) q m, is_marked-mark f f q m dirty))
  | inr e ↦ rw e (ground (arith, mark_uncrawled_lem states fs dirty q m))
]

uncrawled_self :
    (states : Dict (Option ℕ)) (fs : List Text) (f : Text)
    → contains fs f ≡ true
    → never_crawled (lookup f states) ≡ true
    → uncrawled states f f fs ≡ true
unfolding contains
uncrawled_self states [] f h n = ground arith
uncrawled_self states (g ∷ fs) f h n = ground (arith, uncrawled_self states fs f, eq_iff g f)

-- Whatever the logs say, an active folder that the database has no crawl time for is marked dirty, as a
-- leaf of itself.
pub dirty_folders_to_leafs_uncrawled :
    (k : Known) (std_log oce_log : List LogRow) (folder : Text)
    → contains k.active_folders folder ≡ true
    → never_crawled (lookup folder (folder_crawled_at k.folder_rows [])) ≡ true
    → is_marked (dirty_folders_to_leafs k std_log oce_log) folder folder ≡ true
unfolding dirty_folders_to_leafs
dirty_folders_to_leafs_uncrawled k std_log oce_log folder active never =
    let states = folder_crawled_at k.folder_rows [] in
    let marks = mark_uncrawled states k.active_folders [] in
    scan_keeps (db_files k) 0 (oce_records k oce_log)
      (scan (db_files k) 0 (std_records k std_log) marks) folder folder
      (scan_keeps (db_files k) 0 (std_records k std_log) marks folder folder (
        ground (
          arith,
          mark_uncrawled_lem states k.active_folders [] folder folder,
          uncrawled_self states k.active_folders folder active never,
        )))

-- Nothing is marked without a cause: a leaf that is marked is an active folder that was never
-- crawled, or the leaf of a log record whose file is new or newer than the database knows.
pub dirty_folders_to_leafs_sound :
    (k : Known) (std_log oce_log : List LogRow) (parent leaf : Text)
    → is_marked (dirty_folders_to_leafs k std_log oce_log) parent leaf ≡ true
    → (uncrawled (folder_crawled_at k.folder_rows []) parent leaf k.active_folders
        || (calls_for (db_files k) parent leaf (std_records k std_log)
            || calls_for (db_files k) parent leaf (oce_records k oce_log)))
      ≡ true
unfolding dirty_folders_to_leafs
dirty_folders_to_leafs_sound k std_log oce_log parent leaf h =
    let states = folder_crawled_at k.folder_rows [] in
    let marks = mark_uncrawled states k.active_folders [] in
    let from_oce =
      scan_sound (db_files k) 0 (oce_records k oce_log)
        (scan (db_files k) 0 (std_records k std_log) marks) parent leaf h in
    let from_std = scan_sound (db_files k) 0 (std_records k std_log) marks parent leaf in
    ground (
      arith,
      from_oce,
      from_std,
      mark_uncrawled_lem states k.active_folders [] parent leaf,
      is_marked_nil parent leaf,
    )

-- A file of the standard log that is new or updated is marked, unless three files in a row that are up
-- to date stand before it in the log, newest first.
pub dirty_folders_to_leafs_std :
    (k : Known) (std_log oce_log : List LogRow) (before : List LogRecord) (r : LogRecord)
    (after : List LogRecord)
    → std_records k std_log ≡ before ++ (r ∷ after)
    → has_three (up_to_date (db_files k) before) ≡ false
    → is_stale (db_files k) r ≡ true
    → is_marked (dirty_folders_to_leafs k std_log oce_log) r.folder_name (leaf_of r) ≡ true
unfolding dirty_folders_to_leafs
dirty_folders_to_leafs_std k std_log oce_log before r after e quiet stale =
    let marks = mark_uncrawled (folder_crawled_at k.folder_rows []) k.active_folders [] in
    scan_keeps (db_files k) 0 (oce_records k oce_log)
      (scan (db_files k) 0 (std_records k std_log) marks) r.folder_name (leaf_of r)
      (rw e (scan_reaches (db_files k) 0 before r after marks quiet stale))

-- A file of the log of Offered Capacity Evolution that is new or updated is marked, unless three files
-- in a row that are up to date stand before it in that log, newest first.
pub dirty_folders_to_leafs_oce :
    (k : Known) (std_log oce_log : List LogRow) (before : List LogRecord) (r : LogRecord)
    (after : List LogRecord)
    → oce_records k oce_log ≡ before ++ (r ∷ after)
    → has_three (up_to_date (db_files k) before) ≡ false
    → is_stale (db_files k) r ≡ true
    → is_marked (dirty_folders_to_leafs k std_log oce_log) r.folder_name (leaf_of r) ≡ true
unfolding dirty_folders_to_leafs
dirty_folders_to_leafs_oce k std_log oce_log before r after e quiet stale =
    let marks = mark_uncrawled (folder_crawled_at k.folder_rows []) k.active_folders [] in
    rw e (
      scan_reaches (db_files k) 0 before r after (scan (db_files k) 0 (std_records k std_log) marks)
        quiet stale)
