-- ===== src/Lakehouse/Loading/Traced.antt =====
-- What a run of the staging job over the catalog logs and writes, contract by contract.
use mathlib.Core.List.{append-nil}
use entsoe_pipeline.Prelude.{
  ◌≡◌, sym, ap, ◌∙◌, inl, inr, ◌&&◌, Bool, true, false, List, [], ◌∷◌, ◌++◌, map, Text,
  Option-cases,
}
use entsoe_pipeline.Lakehouse.Attempts.{Log, commit_ingestion_attempts}
use entsoe_pipeline.Lakehouse.Gateway.{IngestibleFile, Groups}
use entsoe_pipeline.Lakehouse.Tables.{Write, append_write, merge_write}
use entsoe_pipeline.Lakehouse.Staging.{
  Platform, JobState, JobResult, finished, exited, LoadOutcome, loaded, load_failed, load_group,
  commit_group, fail_group, success_log, failed_log,
}
use entsoe_pipeline.Lakehouse.Staging.Expected.{success_of, failure_of}
use entsoe_pipeline.Lakehouse.Staging.Outcome.{commit_appends, success_logs_are, failed_logs_are}

abbrev pub target_of : Write → Text
target_of (append_write table_name num_files) = table_name
target_of (merge_write table_name conditions num_files) = table_name

abbrev pub log_of : JobResult → Log
log_of (finished s) = s.log
log_of (exited s) = s.log

abbrev pub is_finished : JobResult → Bool
is_finished (finished s) = true
is_finished (exited s) = false

-- The attempts that are logged for the files of a contract whose load has this outcome, and whether the
-- job goes on: successes with the table of the load, failures, or nothing when the job exits.
pub data GroupLog (p : Platform) (domain : Text) (files : List IngestibleFile)
    : LoadOutcome → Bool → Log → Type 0 where
  as_loaded :
      (table_name : Text)
      → GroupLog p domain files
          (loaded table_name)
          true
          (map (success_of p domain table_name) files)
  as_failed :
      (outcome : LoadOutcome) (message : Text)
      → GroupLog p domain files outcome true (map (failure_of p domain message) files)
  unlogged : (outcome : LoadOutcome) → GroupLog p domain files outcome false []

-- The writes of a load: exactly one, to the contract's table, when it went through, else none.
abbrev pub GroupWrites : Text → LoadOutcome → List Write → Type 0
GroupWrites table_name (loaded t) writes =
    (t ≡ table_name) × ((w : Write) × (target_of w ≡ table_name) × (writes ≡ w ∷ []))
GroupWrites table_name (load_failed message) writes = writes ≡ []

-- The attempts and the writes of a run over the groups, in their order, and whether it comes to its end.
-- `table` gives the table of a contract.
pub data Traced (p : Platform) (table : Text → Text)
    : Bool → Groups → Log → List Write → Type 0 where
  ended : Traced p table true [] [] []
  not_begun : (groups : Groups) → Traced p table false groups [] []
  stopped :
      (domain : Text) (files : List IngestibleFile) (groups : Groups) (outcome : LoadOutcome)
      (log : Log) (writes : List Write)
      → GroupLog p domain files outcome false log
      → GroupWrites (table domain) outcome writes
      → Traced p table false ((domain, files) ∷ groups) log writes
  next :
      (domain : Text) (files : List IngestibleFile) (groups : Groups) (outcome : LoadOutcome)
      (finishes : Bool) (log rest : Log) (writes more : List Write)
      → GroupLog p domain files outcome true log
      → GroupWrites (table domain) outcome writes
      → Traced p table finishes groups rest more
      → Traced p table finishes ((domain, files) ∷ groups) (log ++ rest) (writes ++ more)

module _ (p : Platform) (domain : Text) (files : List IngestibleFile) (o : LoadOutcome) where
  abbrev pub LogsAs : Log → JobResult → Type 0
  LogsAs before r =
      (new : Log) × (log_of r ≡ before ++ new) × GroupLog p domain files o (is_finished r) new

  fail_group-LogsAs :
      (message : Text) (s : JobState) → LogsAs s.log (fail_group p domain files message s)
  unfolding fail_group
  fail_group-LogsAs message s =
      let takes = λ (_ : Log). p.namespaces_load domain && p.takes_failed domain in
      let batch = map (failed_log p domain message) files in
      elim (Option-cases (commit_ingestion_attempts takes batch s.log)) [
        | inl h ↦ rw (h, fail_group) ([], sym (append-nil s.log), unlogged o)
        | inr (log, h) ↦
            rw (h, fail_group)
              (
                map (failure_of p domain message) files,
                commit_appends takes batch s.log log h
                    ∙ ap (λ new. s.log ++ new) (failed_logs_are p domain message files),
                as_failed o message,
              )
      ]

module _ (p : Platform) (domain : Text) (files : List IngestibleFile) where
  commit_group-LogsAs :
      (table_name : Text) (s : JobState)
      → LogsAs p domain files (loaded table_name) s.log (commit_group p domain files table_name s)
  unfolding commit_group
  commit_group-LogsAs table_name s =
      let takes = λ (_ : Log). p.takes_success domain in
      let batch = map (success_log p domain table_name) files in
      elim (Option-cases (commit_ingestion_attempts takes batch s.log)) [
        | inl h ↦
            rw (h, commit_group)
              (fail_group-LogsAs p domain files (loaded table_name) (p.commit_error domain) s)
        | inr (log, h) ↦
            rw (h, commit_group)
              (
                map (success_of p domain table_name) files,
                commit_appends takes batch s.log log h
                    ∙ ap (λ new. s.log ++ new) (success_logs_are p domain table_name files),
                as_loaded table_name,
              )
      ]

  pub load_group-LogsAs :
      (o : LoadOutcome) (s : JobState)
      → LogsAs p domain files o s.log (load_group p domain files o s)
  unfolding load_group
  load_group-LogsAs (loaded table_name) s = commit_group-LogsAs table_name s
  load_group-LogsAs (load_failed message) s =
      fail_group-LogsAs p domain files (load_failed message) message s
