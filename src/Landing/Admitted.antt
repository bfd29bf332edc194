-- ===== src/Landing/Admitted.antt =====
-- One folder: its path in the landing bucket, and what the gateway does with the key of a file under it.
use mathlib.Core.List.{append_assoc}
use entsoe_pipeline.Prelude.{
  ◌≡◌, some, List, [], ◌∷◌, ◌++◌, Text, text, refl, sym, ◌∙◌, ap, All, split, strip, lower, join,
}
use entsoe_pipeline.Prelude.Texts.Segments.{
  IsName, split-join, strip-around, lower-IsName, strip-join, split-strip-join, join-snoc,
}
use entsoe_pipeline.Classifier.{ClassifierConfig}
use entsoe_pipeline.Io.Remote.{FileMeta}
use entsoe_pipeline.Io.Schema.{TargetMapping}
use entsoe_pipeline.Io.Sync.{s3_key_of}
use entsoe_pipeline.Lakehouse.Attempts.{PendingRow}
use entsoe_pipeline.Lakehouse.Gateway.{admit_row, admit_parts, admit_name, resolve_fms_name}
use entsoe_pipeline.Delta.Crawl.{CrawledFile}
use entsoe_pipeline.Crawler.{compile_folder_metadata}
use entsoe_pipeline.Landing.{SchemaRow, FolderRecord, s3_path, schema_row}

-- A row as a crawl of the folder writes it, its names free of separators.
pub record IsCrawled (row : FolderRecord) : Type 0 where
  pub root_dir : Text
  pub folder_name : Text
  pub files : List CrawledFile
  pub crawled : row.folder_path ≡ (compile_folder_metadata folder_name files root_dir).folder_path
  pub environment_name : IsName row.environment
  pub root_name : IsName root_dir
  pub domain_name : IsName row.domain
  pub name : IsName folder_name

-- The folder's path in the landing bucket
abbrev pub path_of : (row : FolderRecord) → IsCrawled row → Text
path_of row c = s3_path row.environment c.root_dir row.domain c.folder_name

crawled_parts :
    (row : FolderRecord) (c : IsCrawled row)
    → split b'/' (strip b'/' row.folder_path) ≡ c.root_dir ∷ c.folder_name ∷ []
unfolding compile_folder_metadata join
crawled_parts row c =
    ap (λ x. split b'/' (strip b'/' x))
      (c.crawled
        ∙ ap (λ x. b'/' ∷ x) (sym (append_assoc c.root_dir (b'/' ∷ c.folder_name) (text "/"))))
    ∙ ap (split b'/') (
        strip-around b'/' c.root_dir (text "/") c.folder_name c.root_name.0 c.root_name.1 c.name.0
          c.name.1)
    ∙ split-join b'/' c.root_dir (c.folder_name ∷ []) c.root_name.1 (c.name.1, tt)

abbrev pub schema_row_at : (row : FolderRecord) → IsCrawled row → SchemaRow
schema_row_at row c = record {
  environment = lower row.environment;
  domain = row.domain;
  folder_name = c.folder_name;
}

pub schema_row-path_of :
    (row : FolderRecord) (c : IsCrawled row)
    → schema_row row ≡ some (path_of row c, schema_row_at row c)
schema_row-path_of row c = rw (crawled_parts row c) refl

-- The names in a path
abbrev tail_names : (row : FolderRecord) → IsCrawled row → List Text
tail_names row c = c.root_dir ∷ row.domain ∷ c.folder_name ∷ []

tail_names-IsName : (row : FolderRecord) (c : IsCrawled row) → All IsName (tail_names row c)
tail_names-IsName row c = (c.root_name, (c.domain_name, (c.name, tt)))

path_of-join :
    (row : FolderRecord) (c : IsCrawled row)
    → path_of row c ≡ join b'/' (lower row.environment ∷ tail_names row c)
unfolding join
path_of-join row c = refl

pub path_parts :
    (row : FolderRecord) (c : IsCrawled row)
    → split b'/' (path_of row c) ≡ lower row.environment ∷ tail_names row c
path_parts row c =
    ap (split b'/') (path_of-join row c)
    ∙ split-join b'/' (lower row.environment) (tail_names row c)
        (lower-IsName row.environment c.environment_name).1
        (c.root_name.1, (c.domain_name.1, (c.name.1, tt)))

-- The key of a file under a path: its five segments.
key_parts :
    (row : FolderRecord) (c : IsCrawled row) (m : TargetMapping) (f : FileMeta)
    → m.schema_path ≡ path_of row c
    → IsName f.name
    → split b'/' (strip b'/' (s3_key_of m f))
      ≡ lower row.environment ∷ c.root_dir ∷ row.domain ∷ c.folder_name ∷ f.name ∷ []
unfolding s3_key_of
key_parts row c m f e n =
    let env = lower-IsName row.environment c.environment_name in
    ap (λ x. split b'/' (strip b'/' (strip b'/' x ++ (b'/' ∷ f.name)))) (e ∙ path_of-join row c)
    ∙ ap (λ x. split b'/' (strip b'/' (x ++ (b'/' ∷ f.name))))
        (strip-join (lower row.environment) (tail_names row c) env (tail_names-IsName row c))
    ∙ ap (λ x. split b'/' (strip b'/' x))
        (join-snoc b'/' (lower row.environment) f.name (tail_names row c))
    ∙ split-strip-join (lower row.environment) (tail_names row c ++ (f.name ∷ [])) env
        (c.root_name, (c.domain_name, (c.name, (n, tt))))

pub admit_row-synced :
    (classifier : ClassifierConfig) (row : FolderRecord) (c : IsCrawled row) (m : TargetMapping)
    (f : FileMeta) (pending : PendingRow)
    → m.schema_path ≡ path_of row c
    → IsName f.name
    → pending.s3_key ≡ s3_key_of m f
    → admit_row classifier pending
      ≡ admit_name pending row.domain (resolve_fms_name classifier row.domain c.folder_name)
unfolding admit_row
admit_row-synced classifier row c m f pending e n k =
    ap (admit_parts classifier pending)
      (ap (λ x. split b'/' (strip b'/' x)) k ∙ key_parts row c m f e n)
