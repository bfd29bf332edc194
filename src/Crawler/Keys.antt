-- ===== src/Crawler/Keys.antt =====
-- The keys of `fms_folders` stay unique through a crawl.
use mathlib.Core.Path.{subst}
use mathlib.Core.Option.{some-injective}
use entsoe_pipeline.Prelude.{
  ℕ, ◌<◌, ◌≡◌, refl, sym, ◌∙◌, Option, none, some, List, [], ◌∷◌, Text, ◌==◌, eq_iff, Dict, lookup,
  insert, lookup-insert, Bool-cases, Option-cases, inl, inr, if◌then◌else◌, arith,
}
use entsoe_pipeline.Delta.Crawl.{FmsFile, FmsFolder, CrawledFile, update_folder}
use entsoe_pipeline.Crawler.{
  FmsTables, FolderMeta, compile_folder_metadata, folder_row, save_folder, insert_files,
  clear_files, with_files, save_crawled_folder_metadata, Services, CrawlResult, completed, raised,
  save_files, on_crawl, crawl_folders,
}

abbrev pub id_of_row : Option FmsFolder → Option ℕ
id_of_row none = none
id_of_row (some row) = some row.id

abbrev pub id_at : Text → Dict FmsFolder → Option ℕ
id_at path folders = id_of_row (lookup path folders)

-- Every folder's key is below the next one, and no two paths have one key.
pub record IsKeyed (t : FmsTables) : Type 0 where
  pub below : (p : Text) (i : ℕ) → id_at p t.folders ≡ some i → i < t.next_id
  pub distinct :
      (p q : Text) (i : ℕ) → id_at p t.folders ≡ some i → id_at q t.folders ≡ some i → p ≡ q

pub id_at-update_folder :
    (i : ℕ) (f : FmsFolder → FmsFolder) (p : Text) (folders : Dict FmsFolder)
    → ((r : FmsFolder) → (f r).id ≡ r.id)
    → id_at p (update_folder i f folders) ≡ id_at p folders
unfolding lookup update_folder
id_at-update_folder i f p [] h = refl
id_at-update_folder i f p ((k, r) ∷ folders) h =
    ground (arith, id_at-update_folder i f p folders h, h r)

pub id_at-insert :
    (k p : Text) (r : FmsFolder) (folders : Dict FmsFolder)
    → id_at p (insert k r folders) ≡ (if k == p then some r.id else id_at p folders)
id_at-insert k p r folders = ground (arith, lookup-insert k p r folders)

save_folder-IsKeyed :
    (o : Option FmsFolder) (domain : Text) (meta : FolderMeta) (now : ℕ) (s : FmsTables)
    → IsKeyed s
    → IsKeyed (save_folder o domain meta now s).1
unfolding save_folder
save_folder-IsKeyed (some row) domain meta now s h =
    let keeps = λ (p : Text).
      id_at-update_folder row.id (λ r. folder_row r.id r.domain meta now) p s.folders (λ r. refl) in
    record {
      below = λ p i e. h.below p i (sym (keeps p) ∙ e);
      distinct = λ p q i e k. h.distinct p q i (sym (keeps p) ∙ e) (sym (keeps q) ∙ k);
    }
save_folder-IsKeyed none domain meta now s h =
    let row = folder_row s.next_id domain meta now in
    record {
      below =
          λ p i e. ground (arith, e, id_at-insert meta.folder_path p row s.folders, h.below p i);
      distinct = λ p q i e k. ground (
        arith,
        e,
        k,
        id_at-insert meta.folder_path p row s.folders,
        id_at-insert meta.folder_path q row s.folders,
        eq_iff meta.folder_path p,
        eq_iff meta.folder_path q,
        h.below p i,
        h.below q i,
        h.distinct p q i,
      );
    }

with_files-IsKeyed :
    (s : FmsTables) (o : Option (Dict FmsFile)) (t : FmsTables)
    → with_files s o ≡ some t
    → IsKeyed s
    → IsKeyed t
with_files-IsKeyed s none t e h = absurd (cc e)
with_files-IsKeyed s (some out) t e h =
    subst IsKeyed (some-injective _ t e) (record { below = h.below; distinct = h.distinct })

save_crawled_folder_metadata-IsKeyed :
    (domain : Text) (meta : FolderMeta) (files : List CrawledFile) (now : ℕ) (s t : FmsTables)
    → save_crawled_folder_metadata domain meta files now s ≡ some t
    → IsKeyed s
    → IsKeyed t
unfolding save_crawled_folder_metadata
save_crawled_folder_metadata-IsKeyed domain meta files now s t e h =
    let id = (save_folder (lookup meta.folder_path s.folders) domain meta now s).0 in
    let saved = (save_folder (lookup meta.folder_path s.folders) domain meta now s).1 in
    with_files-IsKeyed saved (insert_files id files (clear_files id saved.files)) t e
      (save_folder-IsKeyed (lookup meta.folder_path s.folders) domain meta now s h)

abbrev pub tables_of : CrawlResult → FmsTables
tables_of (completed t) = t
tables_of (raised t) = t

module _ (svc : Services) (domain root_dir : Text) where
  pub save_files-IsKeyed :
      (folder : Text) (files : List CrawledFile) (s t : FmsTables)
      → save_files svc domain root_dir folder files s ≡ some t
      → IsKeyed s
      → IsKeyed t
  save_files-IsKeyed folder files s t e h = elim (Bool-cases (svc.database_works folder)) [
    | inl works ↦
        save_crawled_folder_metadata-IsKeyed domain (compile_folder_metadata folder files root_dir)
          files (svc.now folder) s t (rw works at e) h
    | inr fails ↦ absurd (cc (rw fails at e))
  ]

  on_crawl-IsKeyed :
      (folder : Text) (o : Option (List CrawledFile)) (s : FmsTables) (k : FmsTables → CrawlResult)
      → ((u : FmsTables) → IsKeyed u → IsKeyed (tables_of (k u)))
      → IsKeyed s
      → IsKeyed (tables_of (on_crawl svc domain root_dir folder o s k))
  on_crawl-IsKeyed folder none s k rest h = rest s h
  on_crawl-IsKeyed folder (some files) s k rest h =
      elim (Option-cases (save_files svc domain root_dir folder files s)) [
        | inl e ↦ rw e h
        | inr (t, e) ↦ rw e (rest t (save_files-IsKeyed folder files s t e h))
      ]

  -- Through the crawl of folders, completed or ended by an exception of the database, every folder
  -- keeps a key below the next one, and no two paths come to have one key.
  pub crawl_folders-IsKeyed :
      (folders : List Text) (s : FmsTables)
      → IsKeyed s
      → IsKeyed (tables_of (crawl_folders svc domain root_dir folders s))
  unfolding crawl_folders
  crawl_folders-IsKeyed [] s h = h
  crawl_folders-IsKeyed (folder ∷ folders) s h =
      on_crawl-IsKeyed folder (svc.crawl_metadata_folder folder) s
        (crawl_folders svc domain root_dir folders) (λ u. crawl_folders-IsKeyed folders u) h
