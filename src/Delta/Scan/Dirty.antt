-- ===== src/Delta/Scan/Dirty.antt =====
-- What the scan of the logs marks, and what it cannot miss.

use entsoe_pipeline.Prelude.{
  ℕ, ◌+◌, ◌≡◌, refl, inl, inr, Bool, true, false, ◌&&◌, ◌||◌, Option, List, [], ◌∷◌, ◌++◌, any,
  Text, ◌==◌, eq_iff, contains, Dict, lookup, lookup-insert, lookup-nil, Bool-cases, arith,
}
use entsoe_pipeline.Delta.Scan.{Dirty, LogRecord, leaves_of, add, mark, is_stale, leaf_of, scan}

abbrev pub is_marked : Dirty → Text → Text → Bool
is_marked dirty parent leaf = contains (leaves_of (lookup parent dirty)) leaf

pub is_marked_nil : (parent leaf : Text) → is_marked [] parent leaf ≡ false
unfolding contains
is_marked_nil parent leaf = rw (lookup-nil {V = List Text} parent) refl

contains-append :
    (ls ms : List Text) (l : Text) → contains (ls ++ ms) l ≡ (contains ls l || contains ms l)
unfolding contains
contains-append [] ms l = refl
contains-append (k ∷ ls) ms l = ground (arith, contains-append ls ms l)

contains-add : (l m : Text) (ls : List Text) → contains (add l ls) m ≡ (contains ls m || l == m)
unfolding contains
contains-add l m ls = ground (arith, contains-append ls (l ∷ []) m, eq_iff l m)

pub is_marked-mark :
    (p l q m : Text) (dirty : Dirty)
    → is_marked (mark p l dirty) q m ≡ (is_marked dirty q m || (p == q && l == m))
unfolding mark
is_marked-mark p l q m dirty = ground (
  arith,
  lookup-insert p q (add l (leaves_of (lookup p dirty))) dirty,
  contains-add l m (leaves_of (lookup p dirty)),
  eq_iff p q,
)

-- Some record of the list is stale and stands for the leaf of the folder.
abbrev pub calls_for : Dict (Option ℕ) → Text → Text → List LogRecord → Bool
calls_for db_files parent leaf =
    any (λ r. is_stale db_files r && (r.folder_name == parent && leaf_of r == leaf))

pub scan_keeps :
    (db_files : Dict (Option ℕ)) (c : ℕ) (rs : List LogRecord) (dirty : Dirty) (q m : Text)
    → is_marked dirty q m ≡ true
    → is_marked (scan db_files c rs dirty) q m ≡ true
unfolding scan
scan_keeps db_files c [] dirty q m h = h
scan_keeps db_files c (r ∷ rs) dirty q m h =
    let marked = scan_keeps db_files 0 rs (mark r.folder_name (leaf_of r) dirty) q m in
    let further = scan_keeps db_files (c + 1) rs dirty q m h in
    elim (Bool-cases (is_stale db_files r)) [
      | inl e ↦
          rw (e, scan) (marked (ground (arith, is_marked-mark r.folder_name (leaf_of r) q m dirty)))
      | inr e ↦ rw (e, scan) (ground (arith, further))
    ]

pub scan_sound :
    (db_files : Dict (Option ℕ)) (c : ℕ) (rs : List LogRecord) (dirty : Dirty) (q m : Text)
    → is_marked (scan db_files c rs dirty) q m ≡ true
    → (is_marked dirty q m || calls_for db_files q m rs) ≡ true
unfolding scan
scan_sound db_files c [] dirty q m h = ground arith
scan_sound db_files c (r ∷ rs) dirty q m h = elim (Bool-cases (is_stale db_files r)) [
  | inl e ↦
      let k =
        scan_sound db_files 0 rs (mark r.folder_name (leaf_of r) dirty) q m (rw (e, scan) at h) in
      ground (arith, k, is_marked-mark r.folder_name (leaf_of r) q m dirty)
  | inr e ↦ let k = scan_sound db_files (c + 1) rs dirty q m in ground (arith, k, rw (e, scan) at h)
]
