-- ===== src/Crawler/Freshness.antt =====
-- src/entsoe_pipeline/fms_metadata/core/fms_metadata_freshness.py: which folders are due for a crawl.
-- Times are numbers of days, and an age limit below zero is zero.
use entsoe_pipeline.Prelude.{
  ℕ, zero, suc, ◌-◌, ◌≡◌, Bool, true, false, not, ◌&&◌, ◌||◌, Option, none, some, List, [], ◌∷◌,
  ◌++◌, any, Text, eq_iff, contains, nat_eq, ltb, if◌then◌else◌, arith,
}

-- `f` holds of a suffix of the text.
abbrev of_suffix : (Text → Bool) → Text → Bool
of_suffix f [] = f []
of_suffix f (c ∷ s) = f (c ∷ s) || of_suffix f s

abbrev of_rest : (ℕ → Bool) → (Text → Bool) → Text → Bool
of_rest first f [] = false
of_rest first f (c ∷ s) = first c && f s

-- SQL's `LIKE`: `%` stands for any text and `_` for any one character.
unfoldable pub sql_like : Text → Text → Bool
sql_like [] [] = true
sql_like [] (c ∷ s) = false
sql_like (p ∷ ps) s =
    if nat_eq p b'%'
    then of_suffix (sql_like ps) s
    else of_rest (λ c. nat_eq p b'_' || nat_eq p c) (sql_like ps) s

-- `folder_path.contains(folder)`, which escapes neither wildcard.
unfoldable pub sql_contains : Text → Text → Bool
unfolding sql_like
sql_contains path folder = sql_like (b'%' ∷ folder ++ (b'%' ∷ [])) path

-- The row that `fetchone` gives: the first of the environment's folders that matches.
unfoldable pub matching_crawl : Text → List (Text × Option ℕ) → Option ℕ
unfolding sql_contains
matching_crawl folder [] = none
matching_crawl folder ((path, crawled_at) ∷ rows) =
    let rest = matching_crawl folder rows in if sql_contains path folder then crawled_at else rest

abbrev pub is_fresh : ℕ → Option ℕ → Bool
is_fresh cutoff none = false
is_fresh cutoff (some crawled_at) = ltb cutoff crawled_at

unfoldable pub stale_folders : ℕ → List (Text × Option ℕ) → List Text → List Text
unfolding matching_crawl
stale_folders cutoff rows [] = []
stale_folders cutoff rows (folder ∷ folders) =
    let rest = stale_folders cutoff rows folders in
    if is_fresh cutoff (matching_crawl folder rows) then rest else folder ∷ rest

-- The clock is past `max_age_days`, so that the cutoff is no negative number.
unfoldable pub filter_fresh_folders : ℕ → ℕ → List (Text × Option ℕ) → List Text → Bool → List Text
unfolding stale_folders
filter_fresh_folders now max_age_days rows folders true = folders
filter_fresh_folders now zero rows folders false = folders
filter_fresh_folders now (suc days) rows folders false = stale_folders (now - suc days) rows folders

-- A row of the database that matches the folder and was crawled after the cutoff.
abbrev pub has_fresh_row : ℕ → Text → List (Text × Option ℕ) → Bool
has_fresh_row cutoff folder =
    any (λ (path, crawled_at). sql_contains path folder && is_fresh cutoff crawled_at)

matching_crawl-is_fresh :
    (cutoff : ℕ) (folder : Text) (rows : List (Text × Option ℕ))
    → is_fresh cutoff (matching_crawl folder rows) ≡ true
    → has_fresh_row cutoff folder rows ≡ true
unfolding matching_crawl
matching_crawl-is_fresh cutoff folder [] h = ground (arith, h)
matching_crawl-is_fresh cutoff folder ((path, crawled_at) ∷ rows) h =
    ground (arith, h, matching_crawl-is_fresh cutoff folder rows)

stale_folders-contains :
    (cutoff : ℕ) (rows : List (Text × Option ℕ)) (folders : List Text) (f : Text)
    → contains folders f ≡ true
    → has_fresh_row cutoff f rows ≡ false
    → contains (stale_folders cutoff rows folders) f ≡ true
unfolding stale_folders contains
stale_folders-contains cutoff rows [] f h n = h
stale_folders-contains cutoff rows (g ∷ folders) f h n = ground (
  arith,
  stale_folders-contains cutoff rows folders f,
  eq_iff g f,
  matching_crawl-is_fresh cutoff f rows,
)

-- Whatever the age limit, no folder is passed over without a crawl that is young enough: one that no
-- row both matches and shows crawled after the cutoff is due. With force, or an age limit of zero, all
-- are.
pub filter_fresh_folders_lem :
    (now max_age_days : ℕ) (rows : List (Text × Option ℕ)) (folders : List Text) (is_force : Bool)
    (f : Text)
    → contains folders f ≡ true
    → (is_force || (nat_eq max_age_days 0 || not (has_fresh_row (now - max_age_days) f rows)))
      ≡ true
    → contains (filter_fresh_folders now max_age_days rows folders is_force) f ≡ true
unfolding filter_fresh_folders
filter_fresh_folders_lem now max_age_days rows folders true f h n = h
filter_fresh_folders_lem now zero rows folders false f h n = h
filter_fresh_folders_lem now (suc days) rows folders false f h n =
    stale_folders-contains (now - suc days) rows folders f h (ground (arith, n))
