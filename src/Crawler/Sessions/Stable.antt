-- ===== src/Crawler/Sessions/Stable.antt =====
-- A folder keeps its key through a crawl, so that the files that refer to it still do.
use entsoe_pipeline.Prelude.{
  ℕ, ◌≡◌, refl, sym, ap, ◌∙◌, Option, none, some, List, [], ◌∷◌, Text, ◌==◌, eq_iff, lookup,
  Bool-cases, Option-cases, inl, inr,
}
use entsoe_pipeline.Delta.Crawl.{FmsFolder, CrawledFile}
use entsoe_pipeline.Crawler.{
  FmsTables, FolderMeta, compile_folder_metadata, folder_row, save_folder, insert_files,
  clear_files, save_crawled_folder_metadata, Services, CrawlResult, save_files, on_crawl,
  crawl_folders,
}
use entsoe_pipeline.Crawler.Keys.{id_at, id_of_row, id_at-update_folder, id_at-insert, tables_of}
use entsoe_pipeline.Crawler.Sessions.Frame.{with_files-folders}

module _ (p : Text) (i : ℕ) where
  -- The folder with the path has the key.
  abbrev pub HasId : FmsTables → Type 0
  HasId t = id_at p t.folders ≡ some i

  save_folder-HasId :
      (o : Option FmsFolder) (domain : Text) (meta : FolderMeta) (now : ℕ) (s : FmsTables)
      → lookup meta.folder_path s.folders ≡ o
      → HasId s
      → HasId (save_folder o domain meta now s).1
  unfolding save_folder
  save_folder-HasId (some row) domain meta now s e h =
      id_at-update_folder row.id (λ r. folder_row r.id r.domain meta now) p s.folders (λ r. refl)
      ∙ h
  save_folder-HasId none domain meta now s e h = elim (Bool-cases (meta.folder_path == p)) [
    | inl same ↦
        let absent : id_at p s.folders ≡ none =
          ap (λ q. id_at q s.folders) (sym ((eq_iff meta.folder_path p).0 same)) ∙ ap id_of_row e in
        absurd (cc (absent, h))
    | inr other ↦
        id_at-insert meta.folder_path p (folder_row s.next_id domain meta now) s.folders
        ∙ rw other h
  ]

  save_crawled_folder_metadata-HasId :
      (domain : Text) (meta : FolderMeta) (files : List CrawledFile) (now : ℕ) (s t : FmsTables)
      → save_crawled_folder_metadata domain meta files now s ≡ some t
      → HasId s
      → HasId t
  unfolding save_crawled_folder_metadata
  save_crawled_folder_metadata-HasId domain meta files now s t e h =
      let o = lookup meta.folder_path s.folders in
      let id = (save_folder o domain meta now s).0 in
      let saved = (save_folder o domain meta now s).1 in
      ap (id_at p)
        (with_files-folders saved (insert_files id files (clear_files id saved.files)) t e)
      ∙ save_folder-HasId o domain meta now s refl h

  module _ (svc : Services) (domain root_dir : Text) where
    save_files-HasId :
        (folder : Text) (files : List CrawledFile) (s t : FmsTables)
        → save_files svc domain root_dir folder files s ≡ some t
        → HasId s
        → HasId t
    save_files-HasId folder files s t e h = elim (Bool-cases (svc.database_works folder)) [
      | inl works ↦
          save_crawled_folder_metadata-HasId domain (compile_folder_metadata folder files root_dir)
            files (svc.now folder) s t (rw works at e) h
      | inr fails ↦ absurd (cc (rw fails at e))
    ]

    on_crawl-HasId :
        (folder : Text) (o : Option (List CrawledFile)) (s : FmsTables)
        (k : FmsTables → CrawlResult)
        → ((u : FmsTables) → HasId u → HasId (tables_of (k u)))
        → HasId s
        → HasId (tables_of (on_crawl svc domain root_dir folder o s k))
    on_crawl-HasId folder none s k rest h = rest s h
    on_crawl-HasId folder (some files) s k rest h =
        elim (Option-cases (save_files svc domain root_dir folder files s)) [
          | inl e ↦ rw e h
          | inr (t, e) ↦ rw e (rest t (save_files-HasId folder files s t e h))
        ]

    pub crawl_folders-HasId :
        (folders : List Text) (s : FmsTables)
        → HasId s
        → HasId (tables_of (crawl_folders svc domain root_dir folders s))
    unfolding crawl_folders
    crawl_folders-HasId [] s h = h
    crawl_folders-HasId (folder ∷ folders) s h =
        on_crawl-HasId folder (svc.crawl_metadata_folder folder) s
          (crawl_folders svc domain root_dir folders) (λ u. crawl_folders-HasId folders u) h
