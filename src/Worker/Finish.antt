-- ===== src/Worker/Finish.antt =====
-- How worker/repository.py ends a run that did not succeed: failure, cancellation, automatic retry.
pub mod Ended
pub mod Over
pub mod Failing
pub mod Returned
pub mod Retrying
use market_quorum.Prelude.{
  ℕ, suc, ◌+◌, ◌==◌, leb, ltb, Bool, true, false, not, ◌&&◌, ◌||◌, List, [], ◌∷◌, Option, none,
  some, String, str_eq, if◌then◌else◌, take, is_some, any,
}
use market_quorum.Prelude.Table.{Table, lookup, erase}
use market_quorum.Prelude.Text.{Text}
use market_quorum.Prelude.Json.{Json, Fields, num, str, end, field}
use market_quorum.Domain.Runs.{
  RunStatus, failed, cancelling, cancelled, cancel_requested, queued, same_status,
}
use market_quorum.Store.{Database, AssessmentRun, StepStatus, WorkerLease, idle}
use market_quorum.Store.Tx.{
  Tx, pure, raise, gets, modify, or_raise, raise_unless, assert_transition, ◌>>=◌, ◌>>◌,
  runtime_error,
}
use market_quorum.Store.Events.{append_event}
use market_quorum.Assessments.{RunContext, run_context, create_retry}
use market_quorum.Assessments.Cancel.{save_run, is_cancel_status}
use market_quorum.Worker.{update_worker}
use market_quorum.Worker.RunnerEvents.{finish_running_steps}

abbrev pub released_workers : Option WorkerLease → Database → Database
released_workers none db = db
released_workers (some lease) db = record db {
  workers = update_worker lease.worker_id (λ w. record w { status = idle }) db.workers;
}

-- `_release_lease`
abbrev pub release_lease : ℕ → Tx (Unit {0})
release_lease run_id = do
  lease ← gets (λ db. lookup run_id db.leases)
  modify (λ db. record db { leases = erase run_id db.leases })
  modify (released_workers lease)

-- The step of `finalize_cancelled` from a requested to a started cancellation.
abbrev pub begin_cancelling : ℕ → AssessmentRun → Tx AssessmentRun
begin_cancelling run_id run = do
  assert_transition run.status cancelling
  let run' = record run { status = cancelling; version = run.version + 1 }
  save_run run_id run'
  append_event run_id ("assessment" ∷ "cancelling" ∷ []) end
  pure run'

abbrev pub complete_cancelling : ℕ → ℕ → AssessmentRun → Tx (Unit {0})
complete_cancelling run_id now run = do
  assert_transition run.status cancelled
  save_run run_id
      (record run { status = cancelled; finished_at = some now; version = run.version + 1 })
  append_event run_id ("assessment" ∷ "cancelled" ∷ []) end
  release_lease run_id

abbrev pub cancel_steps_done : ℕ → AssessmentRun → ℕ → Tx (Unit {0})
cancel_steps_done run_id run now = do
  run' ← if same_status run.status cancel_requested then begin_cancelling run_id run else pure run
  complete_cancelling run_id now run'

unfoldable pub cancel_found : ℕ → AssessmentRun → ℕ → Tx (Unit {0})
unfolding same_status
cancel_found run_id run now = do
  finish_running_steps run_id run.attempt StepStatus.cancelled none now
  cancel_steps_done run_id run now

unfoldable pub finalize_cancelled : ℕ → ℕ → Tx (Unit {0})
unfolding cancel_found
finalize_cancelled run_id now = do
  run ←
      or_raise (← gets (λ db. lookup run_id db.runs))
        (runtime_error "cancelled runner references an unknown run")
  cancel_found run_id run now

unfoldable pub fail_found : ℕ → AssessmentRun → String → Text → ℕ → Tx (Unit {0})
fail_found run_id run error_code error_summary now = do
  assert_transition run.status failed
  finish_running_steps run_id run.attempt StepStatus.failed (some error_code) now
  save_run run_id (record run {
    status = failed;
    error_code = some error_code;
    error_summary = some (take 2000 error_summary);
    finished_at = some now;
    version = run.version + 1;
  })
  append_event run_id ("assessment" ∷ "failed" ∷ []) (field "error_code" (str error_code) end)
  release_lease run_id

-- A run whose cancellation was requested is cancelled instead.
unfoldable pub finalize_failure : ℕ → String → Text → ℕ → Tx (Unit {0})
unfolding finalize_cancelled fail_found
finalize_failure run_id error_code error_summary now = do
  run ←
      or_raise (← gets (λ db. lookup run_id db.runs))
        (runtime_error "failed runner references an unknown run")
  (if is_cancel_status run.status
      then finalize_cancelled run_id now
      else fail_found run_id run error_code error_summary now)

abbrev pub is_retryable_error : String → Bool
is_retryable_error code = str_eq code "vendor_rate_limit" || str_eq code "vendor_transient"

abbrev pub points_to : ℕ → Option ℕ → Bool
points_to run_id none = false
points_to run_id (some id) = id == run_id

-- Some run is a retry of the run.
abbrev pub has_retry : ℕ → Table AssessmentRun → Bool
has_retry run_id [] = false
has_retry run_id ((_, run) ∷ runs) = points_to run_id run.retry_of_run_id || has_retry run_id runs

-- `run is None or run.status != FAILED or run.attempt > max_retries`
abbrev pub may_retry : Option AssessmentRun → ℕ → Bool
may_retry none max_retries = false
may_retry (some run) max_retries = same_status run.status failed && leb run.attempt max_retries

abbrev pub log_retry : ℕ → ℕ → String → ℕ → AssessmentRun → Tx (Option ℕ)
log_retry run_id retry_id error_code max_retries retry = do
  append_event run_id ("assessment" ∷ "auto_retry_scheduled" ∷ []) (
      field "retry_run_id" (num retry_id) (
        field "error_code" (str error_code)
          (field "attempt" (num retry.attempt) (field "max_retries" (num max_retries) end))))
  pure (some retry_id)

abbrev pub retry_context : ℕ → ℕ → ℕ → String → ℕ → ℕ → RunContext → Tx (Option ℕ)
retry_context request_id retry_id run_id error_code max_retries now context =
    create_retry request_id retry_id context none queued none now
    >>= log_retry run_id retry_id error_code max_retries

abbrev pub create_and_log : ℕ → ℕ → ℕ → String → ℕ → ℕ → Tx (Option ℕ)
create_and_log request_id retry_id run_id error_code max_retries now = do
  context ←
      or_raise (← gets (run_context run_id))
        (runtime_error "automatic retry references an incomplete run context")
  retry_context request_id retry_id run_id error_code max_retries now context

-- The identifier of the retry, if one is made. The first two arguments are the identifiers that
-- the tables give to its rows.
unfoldable pub schedule_automatic_retry : ℕ → ℕ → ℕ → String → ℕ → ℕ → Tx (Option ℕ)
unfolding run_context create_retry same_status
schedule_automatic_retry request_id retry_id run_id error_code max_retries now =
    if not (is_retryable_error error_code) || leb max_retries 0 then pure none else (do
      run ← gets (λ db. lookup run_id db.runs)
      existing ← gets (λ db. has_retry run_id db.runs)
      if may_retry run max_retries && not existing
          then create_and_log request_id retry_id run_id error_code max_retries now
          else pure none)
