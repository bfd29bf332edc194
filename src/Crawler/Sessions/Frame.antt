-- ===== src/Crawler/Sessions/Frame.antt =====
-- What a crawl leaves alone: the rows of paths that it does not write, as long as the keys are unique.
use mathlib.Core.Option.{some-injective}
use entsoe_pipeline.Prelude.{
  ℕ, ◌≡◌, ◌≢◌, refl, sym, ap, ◌∙◌, Option, none, some, List, [], ◌∷◌, ◌++◌, Text, text, ◌==◌,
  eq_iff, Dict, lookup, lookup-insert, Bool-cases, Option-cases, inl, inr, nat_eq, nat_eq_iff,
  arith,
}
use entsoe_pipeline.Delta.Crawl.{FmsFile, FmsFolder, CrawledFile, update_folder}
use entsoe_pipeline.Crawler.{
  FmsTables, FolderMeta, compile_folder_metadata, folder_row, save_folder, insert_files,
  clear_files, with_files, save_crawled_folder_metadata, Services, CrawlResult, save_files,
  on_crawl, crawl_folders,
}
use entsoe_pipeline.Crawler.Keys.{IsKeyed, id_at, id_of_row, tables_of, save_files-IsKeyed}

lookup-update_folder :
    (i : ℕ) (f : FmsFolder → FmsFolder) (p : Text) (folders : Dict FmsFolder)
    → id_at p folders ≢ some i
    → lookup p (update_folder i f folders) ≡ lookup p folders
unfolding lookup update_folder
lookup-update_folder i f p [] h = refl
lookup-update_folder i f p ((k, r) ∷ folders) h = elim (Bool-cases (k == p)) [
  | inl e ↦
      let other : some r.id ≢ some i = rw (e, lookup) at h in
      rw e (elim (Bool-cases (nat_eq r.id i)) [
        | inl same ↦ absurd (other (ap some ((nat_eq_iff r.id i).0 same)))
        | inr different ↦ rw different refl
      ])
  | inr e ↦ rw e (lookup-update_folder i f p folders (rw (e, lookup) at h))
]

save_folder_other :
    (p : Text) (domain : Text) (meta : FolderMeta) (now : ℕ) (s : FmsTables) (o : Option FmsFolder)
    → lookup meta.folder_path s.folders ≡ o
    → IsKeyed s
    → meta.folder_path ≢ p
    → lookup p (save_folder o domain meta now s).1.folders ≡ lookup p s.folders
unfolding save_folder
save_folder_other p domain meta now s none e h n = ground (
  arith,
  lookup-insert meta.folder_path p (folder_row s.next_id domain meta now) s.folders,
  eq_iff meta.folder_path p,
)
save_folder_other p domain meta now s (some row) e h n =
    lookup-update_folder row.id (λ r. folder_row r.id r.domain meta now) p s.folders
      (λ k. n (h.distinct meta.folder_path p row.id (ap id_of_row e) k))

-- The row of a path, and the keys, after a step
abbrev pub Kept : Text → FmsTables → FmsTables → Type 0
Kept p s t = IsKeyed t × (lookup p t.folders ≡ lookup p s.folders)

pub with_files-folders :
    (s : FmsTables) (o : Option (Dict FmsFile)) (t : FmsTables)
    → with_files s o ≡ some t
    → t.folders ≡ s.folders
with_files-folders s none t e = absurd (cc e)
with_files-folders s (some out) t e = ap (λ x. x.folders) (sym (some-injective _ t e))

save_crawled_folder_metadata_row :
    (p domain : Text) (meta : FolderMeta) (files : List CrawledFile) (now : ℕ) (s t : FmsTables)
    → save_crawled_folder_metadata domain meta files now s ≡ some t
    → IsKeyed s
    → meta.folder_path ≢ p
    → lookup p t.folders ≡ lookup p s.folders
unfolding save_crawled_folder_metadata
save_crawled_folder_metadata_row p domain meta files now s t e h n =
    let o = lookup meta.folder_path s.folders in
    let id = (save_folder o domain meta now s).0 in
    let saved = (save_folder o domain meta now s).1 in
    ap (lookup p)
      (with_files-folders saved (insert_files id files (clear_files id saved.files)) t e)
    ∙ save_folder_other p domain meta now s o refl h n

module _ (svc : Services) (domain root_dir p : Text)
    (other : (folder : Text) → (b'/' ∷ root_dir ++ (b'/' ∷ folder ++ text "/")) ≢ p) where
  save_files_row :
      (folder : Text) (files : List CrawledFile) (s t : FmsTables)
      → save_files svc domain root_dir folder files s ≡ some t
      → IsKeyed s
      → lookup p t.folders ≡ lookup p s.folders
  unfolding compile_folder_metadata
  save_files_row folder files s t e h = elim (Bool-cases (svc.database_works folder)) [
    | inl works ↦
        save_crawled_folder_metadata_row p domain (compile_folder_metadata folder files root_dir)
          files (svc.now folder) s t (rw works at e) h (other folder)
    | inr fails ↦ absurd (cc (rw fails at e))
  ]

  Kept-then :
      (s t u : FmsTables) → lookup p t.folders ≡ lookup p s.folders → Kept p t u → Kept p s u
  Kept-then s t u e k = (k.0, k.1 ∙ e)

  on_crawl-Kept :
      (folder : Text) (o : Option (List CrawledFile)) (s : FmsTables) (k : FmsTables → CrawlResult)
      → ((u : FmsTables) → IsKeyed u → Kept p u (tables_of (k u)))
      → IsKeyed s
      → Kept p s (tables_of (on_crawl svc domain root_dir folder o s k))
  on_crawl-Kept folder none s k rest h = rest s h
  on_crawl-Kept folder (some files) s k rest h =
      elim (Option-cases (save_files svc domain root_dir folder files s)) [
        | inl e ↦ rw e (h, refl)
        | inr (t, e) ↦ rw e (
            Kept-then s t (tables_of (k t)) (save_files_row folder files s t e h)
              (rest t (save_files-IsKeyed svc domain root_dir folder files s t e h)))
      ]

  pub crawl_folders-Kept :
      (folders : List Text) (s : FmsTables)
      → IsKeyed s
      → Kept p s (tables_of (crawl_folders svc domain root_dir folders s))
  unfolding crawl_folders
  crawl_folders-Kept [] s h = (h, refl)
  crawl_folders-Kept (folder ∷ folders) s h =
      on_crawl-Kept folder (svc.crawl_metadata_folder folder) s
        (crawl_folders svc domain root_dir folders) (λ u. crawl_folders-Kept folders u) h
