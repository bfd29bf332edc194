-- ===== src/Lakehouse/Attempts/Latest.antt =====
-- The latest attempt on a key, after a batch was appended.
use entsoe_pipeline.Prelude.{
  ◌<◌, ◌≡◌, refl, ap, ◌∙◌, Bool, false, Option, none, some, [], ◌∷◌, ◌++◌, any, Text, ◌==◌, arith,
}
use entsoe_pipeline.Lakehouse.Attempts.{IngestionAttemptLog, Log, later, latest}

abbrev latest_of :
    Option IngestionAttemptLog → Option IngestionAttemptLog → Option IngestionAttemptLog
latest_of none b = b
latest_of (some a) b = some (later a b)

later-later :
    (a b : IngestionAttemptLog) (c : Option IngestionAttemptLog)
    → later a (some (later b c)) ≡ later (later a (some b)) c
later-later a b none = refl
later-later a b (some c) = ground arith

later-latest_of :
    (a : IngestionAttemptLog) (x y : Option IngestionAttemptLog)
    → some (later a (latest_of x y)) ≡ latest_of (some (later a x)) y
later-latest_of a none y = refl
later-latest_of a (some b) y = ap some (later-later a b y)

latest-append : (k : Text) (l m : Log) → latest k (l ++ m) ≡ latest_of (latest k l) (latest k m)
unfolding latest
latest-append k [] m = refl
latest-append k (a ∷ l) m =
    ground (arith, latest-append k l m, later-latest_of a (latest k l) (latest k m))

abbrev pub mentions : Text → Log → Bool
mentions k log = any (λ a. a.s3_key == k) log

latest_unmentioned : (k : Text) (batch : Log) → mentions k batch ≡ false → latest k batch ≡ none
unfolding latest
latest_unmentioned k [] h = refl
latest_unmentioned k (a ∷ batch) h = ground (arith, latest_unmentioned k batch)

pub latest-append_other :
    (k : Text) (log batch : Log) → mentions k batch ≡ false → latest k (log ++ batch) ≡ latest k log
latest-append_other k log batch h =
    latest-append k log batch
    ∙ ap (latest_of (latest k log)) (latest_unmentioned k batch h)
    ∙ latest_of-none (latest k log)
  where
    latest_of-none : (o : Option IngestionAttemptLog) → latest_of o none ≡ o
    latest_of-none none = refl
    latest_of-none (some a) = refl

-- A later attempt in a batch becomes the latest one.
pub latest-append_newer :
    (k : Text) (log batch : Log) (b : IngestionAttemptLog)
    → latest k batch ≡ some b
    → ((o : IngestionAttemptLog) → latest k log ≡ some o → o.ingested_at < b.ingested_at)
    → latest k (log ++ batch) ≡ some b
latest-append_newer k log batch b e newer =
    latest-append k log batch ∙ ap (latest_of (latest k log)) e ∙ wins (latest k log) newer
  where
    wins :
        (x : Option IngestionAttemptLog)
        → ((o : IngestionAttemptLog) → x ≡ some o → o.ingested_at < b.ingested_at)
        → latest_of x (some b) ≡ some b
    wins none h = refl
    wins (some o) h = ground (arith, h o refl)
