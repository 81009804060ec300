-- ===== src/Assessments/Delete.antt =====
-- `AssessmentService.delete` of platform/src/tradingng_platform/assessments/service.py, with what it calls
-- of assessments/repository.py.
pub mod Outcome
pub mod Spared
use market_quorum.Prelude.{
  ℕ, ◌==◌, Bool, true, false, not, ◌&&◌, ◌||◌, List, [], ◌∷◌, map, Option, none, some, String,
  if◌then◌else◌, any, keep, count, bit, is_some, is_empty,
}
use market_quorum.Prelude.Table.{Table, lookup, erase}
use market_quorum.Prelude.Sorted.{by_key, order_by}
use market_quorum.Prelude.Json.{Json, num, str, obj, Fields, end, field, merge}
use market_quorum.Domain.Runs.{RunStatus, is_terminal}
use market_quorum.Domain.Runs.Values.{value}
use market_quorum.Store.{
  Database, AssessmentRun, AssessmentRequest, AssessmentDataRequirement, RunStep, RunEvent,
  Principal,
}
use market_quorum.Store.Tx.{
  Tx, pure, gets, modify, or_raise, raise_unless, ◌>>=◌, ◌>>◌, permission_error,
  assessment_not_found, assessment_access_denied, delete_not_allowed,
}
use market_quorum.Store.Events.{append_audit}
use market_quorum.Assessments.{RunContext, run_context}
use market_quorum.Assessments.Cancel.{has_scope, has_role}

pub record DeletedAssessment : Type 0 where
  pub run_id : ℕ
  pub ticker : String
  pub analysis_date : ℕ
  pub status : RunStatus

-- What other tables hold for the run: whether a validation or a price basis is running, and how many
-- rows the deletion removes, by label, before the leases and among the artifacts.
pub record Elsewhere : Type 0 where
  pub is_validating : Bool
  pub counts : Fields
  pub artifacts : ℕ
  pub isoformat : ℕ → String

abbrev pub names_run : ℕ → Option ℕ → Bool
names_run run_id none = false
names_run run_id (some id) = id == run_id

abbrev pub depends_on : ℕ → ℕ × AssessmentRun → Bool
depends_on run_id (_, run) =
    names_run run_id run.retry_of_run_id || names_run run_id run.clean_reassessment_of_run_id

abbrev pub created_key : ℕ × AssessmentRun → ℕ × ℕ
created_key (id, run) = (run.created_at, id)

unfoldable pub find_dependent_run_ids : ℕ → Database → List ℕ
unfolding order_by
find_dependent_run_ids run_id db =
    map (λ (id, _). id) (order_by (by_key created_key) (keep (depends_on run_id) db.runs))

abbrev pub has_active_work : Elsewhere → ℕ → Database → Bool
has_active_work elsewhere run_id db = is_some (lookup run_id db.leases) || elsewhere.is_validating

-- A row goes unless something refers to it.
abbrev pub prune {ℓ} : {V : Type ℓ} → Bool → ℕ → Table V → Table V
prune is_referenced key t = if is_referenced then t else erase key t

abbrev pub has_request : ℕ → Table AssessmentRun → Bool
has_request request_id = any (λ (_, run). run.request_id == request_id)

abbrev pub has_batch : ℕ → Table AssessmentRequest → Bool
has_batch batch_id = any (λ (_, request). request.batch_id == batch_id)

abbrev pub has_snapshot : ℕ → Table AssessmentRun → Bool
has_snapshot snapshot_id = any (λ (_, run). names_run snapshot_id run.config_snapshot_id)

-- The tables that name the run, without it.
abbrev pub without_run : ℕ → Database → Database
without_run run_id db = record db {
  leases = erase run_id db.leases;
  steps = keep (λ (s : RunStep). not (s.run_id == run_id)) db.steps;
  events = keep (λ (e : RunEvent). not (e.run_id == run_id)) db.events;
  requirements =
      keep (λ (x : ℕ × AssessmentDataRequirement). not (x.1.run_id == run_id)) db.requirements;
  runs = erase run_id db.runs;
}

-- The request and its batch, where nothing refers to them any more.
abbrev pub without_request : ℕ → ℕ → Database → Database
without_request request_id batch_id db =
    let is_requested = has_request request_id db.runs in
    let requests = prune is_requested request_id db.requests in
    record db {
      requests = requests;
      batches = prune (is_requested || has_batch batch_id requests) batch_id db.batches;
    }

abbrev pub without_snapshot : Option ℕ → Database → Database
without_snapshot none db = db
without_snapshot (some id) db = record db {
  snapshots = prune (has_snapshot id db.runs) id db.snapshots;
}

unfoldable pub delete_assessment_graph : RunContext → Database → Database
delete_assessment_graph context db = without_snapshot context.run.config_snapshot_id (
    without_request context.run.request_id context.request.batch_id (without_run context.run_id db))

-- How many rows of the tables go; the last three are named only where their statement runs.
abbrev pub counted_if : Bool → String → ℕ → Fields → Fields
counted_if true label n rest = field label (num n) rest
counted_if false label n rest = rest

abbrev pub snapshot_count : Option ℕ → Database → Fields
snapshot_count none db = end
snapshot_count (some id) db =
    counted_if (not (has_snapshot id db.runs)) "config_snapshots"
      (bit (is_some (lookup id db.snapshots))) end

abbrev pub deletion_counts : Elsewhere → RunContext → Database → Fields
deletion_counts elsewhere context db =
    let run_id = context.run_id in
    let request_id = context.run.request_id in
    let batch_id = context.request.batch_id in
    let gone = without_run run_id db in
    let is_requested = has_request request_id gone.runs in
    let is_batched =
      is_requested || has_batch batch_id (prune is_requested request_id db.requests) in
    merge elsewhere.counts (
      field "worker_leases" (num (bit (is_some (lookup run_id db.leases)))) (
        field "run_steps" (num (count (λ (s : RunStep). s.run_id == run_id) db.steps)) (
          field "artifacts" (num elsewhere.artifacts) (
            field "events" (num (count (λ (e : RunEvent). e.run_id == run_id) db.events)) (
              field "data_requirements"
                (num (
                  count (λ (x : ℕ × AssessmentDataRequirement). x.1.run_id == run_id)
                    db.requirements))
                (field "runs" (num (bit (is_some (lookup run_id db.runs)))) (
                  counted_if (not is_requested) "requests"
                    (bit (is_some (lookup request_id db.requests)))
                    (counted_if (not is_batched) "batches"
                      (bit (is_some (lookup batch_id db.batches)))
                      (snapshot_count context.run.config_snapshot_id gone)))))))))

abbrev pub deleted_of : RunContext → DeletedAssessment
deleted_of context = record {
  run_id = context.run_id;
  ticker = context.instrument.canonical_ticker;
  analysis_date = context.request.analysis_date;
  status = context.run.status;
}

abbrev pub delete_metadata : Elsewhere → RunContext → Database → Fields
delete_metadata elsewhere context db = field "ticker" (str context.instrument.canonical_ticker) (
    field "analysis_date" (str (elsewhere.isoformat context.request.analysis_date)) (
      field "status" (str (value context.run.status)) (
        field "request_id" (num context.run.request_id) (
          field "batch_id" (num context.request.batch_id)
            (field "deleted" (obj (deletion_counts elsewhere context db)) end)))))

-- The checks of the run's state, and the deletion.
abbrev pub delete_context : Elsewhere → Principal → String → RunContext → Tx DeletedAssessment
delete_context elsewhere principal request_id context = do
  let run_id = context.run_id
  raise_unless (is_terminal context.run.status) (delete_not_allowed "run_not_terminal")
  is_working ← gets (has_active_work elsewhere run_id)
  raise_unless (not is_working) (delete_not_allowed "active_work")
  dependents ← gets (find_dependent_run_ids run_id)
  raise_unless (is_empty dependents) (delete_not_allowed "dependent_runs_exist")
  metadata ← gets (delete_metadata elsewhere context)
  modify (delete_assessment_graph context)
  append_audit principal "assessment.delete" "assessment_run" run_id request_id metadata
  pure (deleted_of context)

-- The run's files go after the transaction.
unfoldable pub delete : Elsewhere → Principal → ℕ → String → Tx DeletedAssessment
unfolding run_context is_terminal find_dependent_run_ids delete_assessment_graph merge value
delete elsewhere principal run_id request_id = do
  raise_unless (has_scope "assessments:admin" principal) (permission_error "missing scopes")
  raise_unless (has_role "Admin" principal) assessment_access_denied
  context ← or_raise (← gets (run_context run_id)) (assessment_not_found run_id)
  delete_context elsewhere principal request_id context
