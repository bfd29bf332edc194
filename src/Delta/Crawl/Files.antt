-- ===== src/Delta/Crawl/Files.antt =====
-- The rows of `fms_files` that crawling a folder's leaves leaves behind.
use entsoe_pipeline.Prelude.{
  ℕ, ◌≡◌, refl, ◌∙◌, Bool, true, false, not, ◌&&◌, ◌||◌, Option, none, some, List, [], ◌∷◌, any,
  nat_eq, Text, ◌==◌, Dict, lookup, insert, lookup-insert, Bool-cases, inl, inr, if◌then◌else◌,
  arith,
}
use entsoe_pipeline.Delta.Crawl.{
  FmsFile, CrawledFile, LeafCrawl, crawled, crawl_error, keyboard_interrupt, Services, State, Step,
  going, stopped, file_row, upsert, crawl_leaf, crawl_leaves, unless_stopped,
}

-- Whether the row of a file, if there is one, belongs to the folder.
abbrev pub belongs : ℕ → Option FmsFile → Bool
belongs folder_id none = false
belongs folder_id (some f) = nat_eq f.folder_id folder_id

abbrev pub names_file : Text → List CrawledFile → Bool
names_file file_id fs = any (λ f. f.file_id == file_id) fs

pub belongs-upsert :
    (folder_id : ℕ) (fs : List CrawledFile) (files : Dict FmsFile) (file_id : Text)
    → (belongs folder_id (lookup file_id files) || names_file file_id fs) ≡ true
    → belongs folder_id (lookup file_id (upsert folder_id fs files)) ≡ true
unfolding upsert
belongs-upsert folder_id [] files file_id h = ground arith
belongs-upsert folder_id (f ∷ fs) files file_id h =
    belongs-upsert folder_id fs (insert f.file_id (file_row folder_id f) files) file_id
      (ground (arith, h, lookup-insert f.file_id file_id (file_row folder_id f) files))

module _ (svc : Services) where
  -- The files that a leaf gives the database.
  abbrev pub delivered : Text → LeafCrawl → List CrawledFile
  delivered leaf (crawled fs) = if svc.upsert_fails leaf then [] else fs
  delivered leaf _ = []

  abbrev pub leaf_succeeds : Text → LeafCrawl → Bool
  leaf_succeeds leaf (crawled []) = true
  leaf_succeeds leaf (crawled (f ∷ fs)) = not (svc.upsert_fails leaf)
  leaf_succeeds leaf _ = false

  abbrev pub delivers : Text → List Text → Bool
  delivers file_id = any (λ leaf. names_file file_id (delivered leaf (svc.crawl leaf)))

  abbrev pub all_succeed : List Text → Bool
  all_succeed [] = true
  all_succeed (leaf ∷ leaves) = leaf_succeeds leaf (svc.crawl leaf) && all_succeed leaves

  crawl_leaf_flags :
      (folder_id : ℕ) (leaf : Text) (c : LeafCrawl) (ok : Bool) (s : State) (ok' : Bool) (t : State)
      → crawl_leaf svc folder_id leaf c ok s ≡ going ok' t
      → (ok' ≡ (ok && leaf_succeeds leaf c)) × (t.folders ≡ s.folders)
  unfolding crawl_leaf
  crawl_leaf_flags folder_id leaf (crawled []) ok s ok' t h = ground (arith, h)
  crawl_leaf_flags folder_id leaf (crawled (f ∷ fs)) ok s ok' t h = ground (arith, h)
  crawl_leaf_flags folder_id leaf crawl_error ok s ok' t h = ground (arith, h)
  crawl_leaf_flags folder_id leaf keyboard_interrupt ok s ok' t h = ground (arith, h)

  crawl_leaf_files :
      (folder_id : ℕ) (leaf : Text) (c : LeafCrawl) (ok : Bool) (s : State) (ok' : Bool) (t : State)
      (file_id : Text)
      → crawl_leaf svc folder_id leaf c ok s ≡ going ok' t
      → (belongs folder_id (lookup file_id s.files) || names_file file_id (delivered leaf c)) ≡ true
      → belongs folder_id (lookup file_id t.files) ≡ true
  unfolding crawl_leaf
  crawl_leaf_files folder_id leaf (crawled []) ok s ok' t file_id h k = ground (arith, h, k)
  crawl_leaf_files folder_id leaf (crawled (f ∷ fs)) ok s ok' t file_id h k =
      elim (Bool-cases (svc.upsert_fails leaf)) [
        | inl e ↦ ground (arith, rw (e, crawl_leaf) at h, rw e at k)
        | inr e ↦
            let stored = belongs-upsert folder_id (f ∷ fs) s.files file_id (rw e at k) in
            ground (arith, rw (e, crawl_leaf) at h, stored)
      ]
  crawl_leaf_files folder_id leaf crawl_error ok s ok' t file_id h k = ground (arith, h, k)
  crawl_leaf_files folder_id leaf keyboard_interrupt ok s ok' t file_id h k = ground (arith, h, k)

  pub unless_stopped_lem :
      (r : Step) (k : Bool → State → Step) (ok : Bool) (t : State)
      → unless_stopped svc r k ≡ going ok t
      → (ok' : Bool) × (u : State) × (r ≡ going ok' u) × (k ok' u ≡ going ok t)
  unless_stopped_lem (going ok' u) k ok t h = (ok', u, refl, h)
  unless_stopped_lem (stopped u) k ok t h = ground (arith, h)

  pub crawl_leaves_flags :
      (folder_id : ℕ) (leaves : List Text) (ok : Bool) (s : State) (ok' : Bool) (t : State)
      → crawl_leaves svc folder_id leaves ok s ≡ going ok' t
      → (ok' ≡ (ok && all_succeed leaves)) × (t.folders ≡ s.folders)
  unfolding crawl_leaves
  crawl_leaves_flags folder_id [] ok s ok' t h = ground (arith, h)
  crawl_leaves_flags folder_id (leaf ∷ leaves) ok s ok' t h =
      let (ok1, u, e, k) =
        unless_stopped_lem (crawl_leaf svc folder_id leaf (svc.crawl leaf) ok s)
          (crawl_leaves svc folder_id leaves) ok' t h in
      let first = crawl_leaf_flags folder_id leaf (svc.crawl leaf) ok s ok1 u e in
      let others = crawl_leaves_flags folder_id leaves ok1 u ok' t k in
      (ground (arith, first.0, others.0), others.1 ∙ first.1)

  pub crawl_leaves_files :
      (folder_id : ℕ) (leaves : List Text) (ok : Bool) (s : State) (ok' : Bool) (t : State)
      (file_id : Text)
      → crawl_leaves svc folder_id leaves ok s ≡ going ok' t
      → (belongs folder_id (lookup file_id s.files) || delivers file_id leaves) ≡ true
      → belongs folder_id (lookup file_id t.files) ≡ true
  unfolding crawl_leaves
  crawl_leaves_files folder_id [] ok s ok' t file_id h b = ground (arith, h, b)
  crawl_leaves_files folder_id (leaf ∷ leaves) ok s ok' t file_id h b =
      let (ok1, u, e, k) =
        unless_stopped_lem (crawl_leaf svc folder_id leaf (svc.crawl leaf) ok s)
          (crawl_leaves svc folder_id leaves) ok' t h in
      let first = crawl_leaf_files folder_id leaf (svc.crawl leaf) ok s ok1 u file_id e in
      crawl_leaves_files folder_id leaves ok1 u ok' t file_id k (ground (arith, first, b))
