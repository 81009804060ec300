-- ===== src/Worker/Finish/Returned.antt =====
-- What a call of `finalize_failure` or `finalize_cancelled` of worker/repository.py that returns has done.
use market_quorum.Prelude.{ℕ, ◌≡◌, Option, none, some, String, if◌then◌else◌, inl, inr}
use market_quorum.Prelude.Table.{lookup}
use market_quorum.Prelude.Text.{Text}
use market_quorum.Domain.Runs.{RunStatus, failed, cancelled}
use market_quorum.Store.{Database, AssessmentRun, StepStatus}
use market_quorum.Store.Tx.{ok, or_raise-eq-ok, branch-eq, runtime_error}
use market_quorum.Assessments.Cancel.{is_cancel_status}
use market_quorum.Worker.Finish.{cancel_found, finalize_cancelled, fail_found, finalize_failure}
use market_quorum.Worker.Finish.Ended.{IsEnded, cancel_found-IsEnded, fail_found-IsEnded}

-- A call that does not raise has found the run, and ended it.
pub record HasEnded (run_id now : ℕ) (db db' : Database) : Type 0 where
  pub run : AssessmentRun
  pub found : lookup run_id db.runs ≡ some run
  pub status : RunStatus
  pub step : StepStatus
  pub code : Option String
  pub ended : IsEnded run_id run status step code now db db'

module _ (run_id : ℕ) (now : ℕ) (db : Database) {db' : Database} where
  cancel_found-HasEnded :
      (run : AssessmentRun)
      → lookup run_id db.runs ≡ some run
      → cancel_found run_id run now db ≡ ok (tt, db')
      → HasEnded run_id now db db'
  cancel_found-HasEnded run found h = record {
    run = run;
    found = found;
    status = cancelled;
    step = StepStatus.cancelled;
    code = none;
    ended = cancel_found-IsEnded run_id run now db h;
  }

  pub finalize_cancelled-HasEnded :
      finalize_cancelled run_id now db ≡ ok (tt, db') → HasEnded run_id now db db'
  unfolding finalize_cancelled
  finalize_cancelled-HasEnded h =
      let (run, found, k) =
        or_raise-eq-ok (lookup run_id db.runs)
          (runtime_error "cancelled runner references an unknown run")
          (λ run. cancel_found run_id run now) db h in
      cancel_found-HasEnded run found k

  pub finalize_failure-HasEnded :
      (code : String) (summary : Text)
      → finalize_failure run_id code summary now db ≡ ok (tt, db')
      → HasEnded run_id now db db'
  unfolding finalize_failure
  finalize_failure-HasEnded code summary h =
      let (run, found, k) =
        or_raise-eq-ok (lookup run_id db.runs)
          (runtime_error "failed runner references an unknown run")
          (λ run.
            if is_cancel_status run.status
            then finalize_cancelled run_id now
            else fail_found run_id run code summary now)
          db h in
      elim (branch-eq (is_cancel_status run.status) (finalize_cancelled run_id now)
        (fail_found run_id run code summary now) db k) [
          | inl (_, k) ↦ finalize_cancelled-HasEnded k
          | inr (_, k) ↦ record {
            run = run;
            found = found;
            status = failed;
            step = StepStatus.failed;
            code = some code;
            ended = fail_found-IsEnded run_id run now db code summary k;
          }
        ]
