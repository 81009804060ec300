-- ===== src/Worker/Finish/Failing.antt =====
-- Which runs `finalize_failure` and `finalize_cancelled` of worker/repository.py end, and how.
use market_quorum.Prelude.{
  ℕ, ◌≡◌, refl, ap, sym, Bool, Option-cases, [], ◌∙◌, true, false, ◌||◌, Option, none, some, String,
  arith, if◌then◌else◌, Bool-cases, inl, inr,
}
use market_quorum.Prelude.Table.{lookup}
use market_quorum.Prelude.Text.{Text}
use market_quorum.Domain.Runs.{
  RunStatus, queued, admitted, succeeded, needs_attention, failed, cancelled, cancelling,
  cancel_requested, is_allowed, same_status,
}
use market_quorum.Store.{Database, AssessmentRun, StepStatus}
use market_quorum.Store.Tx.{ok, is_ok, is_ok-result}
use market_quorum.Assessments.Cancel.{is_cancel_status}
use market_quorum.Worker.Finish.{
  cancel_steps_done, cancel_found, finalize_cancelled, fail_found, finalize_failure,
}
use market_quorum.Worker.Finish.Over.{IsOver, IsEnded-IsOver}
use market_quorum.Worker.Finish.Ended.{cancel_found-IsEnded, fail_found-IsEnded}

cancel_steps_done-is_ok :
    (run_id : ℕ) (run : AssessmentRun) (s : RunStatus) (now : ℕ) (db : Database)
    → is_cancel_status s ≡ true
    → is_ok (cancel_steps_done run_id (record run { status = s }) now db) ≡ true
unfolding same_status is_allowed
cancel_steps_done-is_ok run_id run cancel_requested now db c = refl
cancel_steps_done-is_ok run_id run cancelling now db c = refl
cancel_steps_done-is_ok run_id run _ now db c = ground arith

cancel_found-is_ok :
    (run_id : ℕ) (run : AssessmentRun) (now : ℕ) (db : Database)
    → is_cancel_status run.status ≡ true
    → is_ok (cancel_found run_id run now db) ≡ true
unfolding cancel_found
cancel_found-is_ok run_id run now db c = cancel_steps_done-is_ok run_id run run.status now _ c

fail_found-is_ok :
    (run_id : ℕ) (run : AssessmentRun) (code : String) (summary : Text) (now : ℕ) (db : Database)
    → is_allowed run.status failed ≡ true
    → is_ok (fail_found run_id run code summary now db) ≡ true
unfolding fail_found
fail_found-is_ok run_id run code summary now db h = ground arith

fail_found-raises :
    (run_id : ℕ) (run : AssessmentRun) (code : String) (summary : Text) (now : ℕ) (db : Database)
    → is_allowed run.status failed ≡ false
    → is_ok (fail_found run_id run code summary now db) ≡ false
unfolding fail_found
fail_found-raises run_id run code summary now db h = ground arith

-- A run that waits for data, that is at work or that is being cancelled.
abbrev pub is_unfinished : RunStatus → Bool
is_unfinished queued = false
is_unfinished admitted = false
is_unfinished succeeded = false
is_unfinished failed = false
is_unfinished cancelled = false
is_unfinished needs_attention = false
is_unfinished _ = true

abbrev pub is_found_unfinished : Option AssessmentRun → Bool
is_found_unfinished none = false
is_found_unfinished (some run) = is_unfinished run.status

may_end-is_unfinished :
    (s : RunStatus) → (is_cancel_status s || is_allowed s failed) ≡ is_unfinished s
unfolding is_allowed
may_end-is_unfinished queued = refl
may_end-is_unfinished _ = refl

-- The status in which a failing run ends, and its steps with it.
abbrev pub failure_status : RunStatus → RunStatus × StepStatus
failure_status s =
    if is_cancel_status s then (cancelled, StepStatus.cancelled) else (failed, StepStatus.failed)

abbrev pub failure_code : RunStatus → String → Option String
failure_code s code = if is_cancel_status s then none else some code

module _ (run_id : ℕ) (run : AssessmentRun) (code : String) (summary : Text) (now : ℕ)
    (db : Database) (found : lookup run_id db.runs ≡ some run) where
  finalize_cancelled-found : finalize_cancelled run_id now db ≡ cancel_found run_id run now db
  unfolding finalize_cancelled
  finalize_cancelled-found = rw found refl

  finalize_failure-found :
      finalize_failure run_id code summary now db
      ≡ (if is_cancel_status run.status
            then finalize_cancelled run_id now
            else fail_found run_id run code summary now)
          db
  unfolding finalize_failure
  finalize_failure-found = rw found refl

  cancels :
      is_cancel_status run.status ≡ true
      → (db' : Database) × (finalize_cancelled run_id now db ≡ ok (tt, db'))
        × IsOver run_id run cancelled StepStatus.cancelled none now db db'
  cancels c =
      let (db', e) = is_ok-result _ (cancel_found-is_ok run_id run now db c) in
      let ended = cancel_found-IsEnded run_id run now db e in
      (
        db',
        finalize_cancelled-found ∙ e,
        IsEnded-IsOver run_id run cancelled StepStatus.cancelled none now db db' ended,
      )

  fails :
      is_cancel_status run.status ≡ false
      → is_allowed run.status failed ≡ true
      → (db' : Database) × (finalize_failure run_id code summary now db ≡ ok (tt, db'))
        × IsOver run_id run failed StepStatus.failed (some code) now db db'
  fails c a =
      let (db', e) = is_ok-result _ (fail_found-is_ok run_id run code summary now db a) in
      let ended = fail_found-IsEnded run_id run now db code summary e in
      (
        db',
        finalize_failure-found ∙ rw c e,
        IsEnded-IsOver run_id run failed StepStatus.failed (some code) now db db' ended,
      )

  -- For a run that is found and that is being cancelled or may fail, `finalize_failure` does not
  -- raise: the run ends, cancelled in the first case and failed in the second; its steps that run
  -- have the status, the time and the error code with which it ends and all other steps are as
  -- before; its lease is gone and the others are as before; the lease's worker, if there is one,
  -- is idle and the other workers are as before; and no other run changes.
  pub finalize_failure-IsOver :
      (is_cancel_status run.status || is_allowed run.status failed) ≡ true
      → (db' : Database) × (finalize_failure run_id code summary now db ≡ ok (tt, db'))
        × IsOver run_id run
            (failure_status run.status).0
            (failure_status run.status).1
            (failure_code run.status code)
            now
            db
            db'
  finalize_failure-IsOver h = elim (Bool-cases (is_cancel_status run.status)) [
    | inl c ↦ let (db', e, over) = cancels c in (db', finalize_failure-found ∙ rw c e, rw c over)
    | inr c ↦ let (db', e, over) = fails c (rw c at h) in (db', e, rw c over)
  ]

  finalize_failure-found_is_ok :
      is_ok (finalize_failure run_id code summary now db)
      ≡ (is_cancel_status run.status || is_allowed run.status failed)
  finalize_failure-found_is_ok =
      elim (Bool-cases (is_cancel_status run.status || is_allowed run.status failed)) [
        | inl may ↦ let (db', e, over) = finalize_failure-IsOver may in rw may (ap is_ok e)
        | inr may_not ↦
            let c : is_cancel_status run.status ≡ false = ground arith in
            rw may_not (
              ap is_ok (finalize_failure-found ∙ rw c refl)
              ∙ fail_found-raises run_id run code summary now db (rw c at may_not))
      ]

module _ (run_id : ℕ) (run : AssessmentRun) (now : ℕ) (db : Database)
    (found : lookup run_id db.runs ≡ some run) where
  -- For a run that is found and that is being cancelled, `finalize_cancelled` does not raise: the
  -- run ends cancelled; its steps that run have the status, the time and the error code with
  -- which it ends and all other steps are as before; its lease is gone and the others are as
  -- before; the lease's worker, if there is one, is idle and the other workers are as before; and
  -- no other run changes.
  pub finalize_cancelled-IsOver :
      is_cancel_status run.status ≡ true
      → (db' : Database) × (finalize_cancelled run_id now db ≡ ok (tt, db'))
        × IsOver run_id run cancelled StepStatus.cancelled none now db db'
  finalize_cancelled-IsOver c = cancels run_id run "" [] now db found c

-- For any run, error and tables, `finalize_failure` returns exactly where the run is found and
-- waits for data, is at work (from `starting` to `finalizing`) or is being cancelled; it raises
-- for a run that is not found, is queued or admitted, has ended, or needs attention.
pub finalize_failure-is_ok :
    (run_id : ℕ) (code : String) (summary : Text) (now : ℕ) (db : Database)
    → is_ok (finalize_failure run_id code summary now db)
      ≡ is_found_unfinished (lookup run_id db.runs)
unfolding finalize_failure
finalize_failure-is_ok run_id code summary now db = elim (Option-cases (lookup run_id db.runs)) [
  | inl missing ↦ rw missing refl
  | inr (run, found) ↦
      finalize_failure-found_is_ok run_id run code summary now db found
      ∙ may_end-is_unfinished run.status
      ∙ ap is_found_unfinished (sym found)
]
