-- ===== src/Worker/Finish/Ended.antt =====
-- How worker/repository.py leaves a run that fails or is cancelled.
use market_quorum.Prelude.{
  ℕ, ◌+◌, ◌≡◌, refl, sym, ap, ◌∙◌, Bool, true, false, map, take, Option, none, some, String, arith,
  if◌then◌else◌,
}
use market_quorum.Prelude.Table.{lookup, insert, erase, insert-insert}
use market_quorum.Prelude.Text.{Text}
use market_quorum.Domain.Runs.{
  RunStatus, failed, cancelled, cancelling, cancel_requested, same_status,
}
use market_quorum.Store.{Database, AssessmentRun, StepStatus}
use market_quorum.Store.Tx.{ok, >>=-eq-ok, ok-eq, pure}
use market_quorum.Worker.RunnerEvents.{finish_step}
use market_quorum.Worker.Finish.{
  released_workers, begin_cancelling, complete_cancelling, cancel_found, fail_found,
}

-- The run has ended with a status, its lease is gone and the lease's worker is free; no other run
-- has changed and its running steps have ended with it.
pub record IsEnded (run_id : ℕ) (run : AssessmentRun) (status : RunStatus) (step : StepStatus)
    (code : Option String) (now : ℕ) (db db' : Database) : Type 0 where
  pub run' : AssessmentRun
  pub ends : run'.status ≡ status
  pub finished : run'.finished_at ≡ some now
  pub attempt : run'.attempt ≡ run.attempt
  pub runs : db'.runs ≡ insert run_id run' db.runs
  pub steps : db'.steps ≡ map (finish_step run_id run.attempt step code now) db.steps
  pub leases : db'.leases ≡ erase run_id db.leases
  pub workers : db'.workers ≡ (released_workers (lookup run_id db.leases) db).workers

-- What lies between a run and its end: no other run, no lease and no worker changes.
record IsBegun (run_id : ℕ) (run run' : AssessmentRun) (db db' : Database) : Type 0 where
  attempt : run'.attempt ≡ run.attempt
  overwritten : (v : AssessmentRun) → insert run_id v db'.runs ≡ insert run_id v db.runs
  steps : db'.steps ≡ db.steps
  leases : db'.leases ≡ db.leases
  workers : db'.workers ≡ db.workers

begun_runs :
    (run_id : ℕ) (run : AssessmentRun) (db : Database) {run' : AssessmentRun} {db' : Database}
    → begin_cancelling run_id run db ≡ ok (run', db')
    → db'.runs
      ≡ insert run_id (record run { status = cancelling; version = run.version + 1 }) db.runs
begun_runs run_id run db h = ground arith

begin_cancelling-IsBegun :
    (run_id : ℕ) (run : AssessmentRun) (begins : Bool) (db : Database) {run' : AssessmentRun}
    {db' : Database}
    → (if begins then begin_cancelling run_id run else pure run) db ≡ ok (run', db')
    → IsBegun run_id run run' db db'
begin_cancelling-IsBegun run_id run true db h = record {
  attempt = ground arith;
  overwritten = λ v. rw (begun_runs run_id run db h) (insert-insert run_id _ v db.runs);
  steps = ground arith;
  leases = ground arith;
  workers = ground arith;
}
begin_cancelling-IsBegun run_id run false db h = record {
  attempt = ap (λ r. r.attempt) (sym (ok-eq h).0);
  overwritten = λ v. ap (λ d. insert run_id v d.runs) (sym (ok-eq h).1);
  steps = ap (λ d. d.steps) (sym (ok-eq h).1);
  leases = ap (λ d. d.leases) (sym (ok-eq h).1);
  workers = ap (λ d. d.workers) (sym (ok-eq h).1);
}

complete_cancelling-IsEnded :
    (run_id : ℕ) (run : AssessmentRun) (now : ℕ) (db : Database) {u : Unit {0}} {db' : Database}
    → complete_cancelling run_id now run db ≡ ok (u, db')
    → (db'.runs
        ≡ insert run_id
            (record run { status = cancelled; finished_at = some now; version = run.version + 1 })
            db.runs)
      × (db'.steps ≡ db.steps)
      × (db'.leases ≡ erase run_id db.leases)
      × (db'.workers ≡ (released_workers (lookup run_id db.leases) db).workers)
complete_cancelling-IsEnded run_id run now db h = ground arith

released_workers-cong :
    (run_id : ℕ) (db db' : Database)
    → db'.leases ≡ db.leases
    → db'.workers ≡ db.workers
    → (released_workers (lookup run_id db'.leases) db').workers
      ≡ (released_workers (lookup run_id db.leases) db).workers
released_workers-cong run_id db db' l w = ground arith

module _ (run_id : ℕ) (run : AssessmentRun) (now : ℕ) (db : Database) where
  abbrev steps_done : StepStatus → Option String → Database
  steps_done step code = record db {
    steps = map (finish_step run_id run.attempt step code now) db.steps;
  }

  pub cancel_found-IsEnded :
      {u : Unit {0}} {db' : Database}
      → cancel_found run_id run now db ≡ ok (u, db')
      → IsEnded run_id run cancelled StepStatus.cancelled none now db db'
  unfolding cancel_found
  cancel_found-IsEnded h =
      let (run', db1, e, k) =
        >>=-eq-ok
          (if same_status run.status cancel_requested
            then begin_cancelling run_id run
            else pure run)
          (complete_cancelling run_id now) (steps_done StepStatus.cancelled none) h in
      let b = begin_cancelling-IsBegun run_id run (same_status run.status cancel_requested) _ e in
      let (runs, steps, leases, workers) = complete_cancelling-IsEnded run_id run' now db1 k in
      let new : AssessmentRun = record run' {
        status = cancelled;
        finished_at = some now;
        version = run'.version + 1;
      } in
      record {
        run' = new;
        ends = refl;
        finished = refl;
        attempt = b.attempt;
        runs = runs ∙ b.overwritten new;
        steps = steps ∙ b.steps;
        leases = leases ∙ ap (erase run_id) b.leases;
        workers = workers ∙ released_workers-cong run_id _ db1 b.leases b.workers;
      }

  pub fail_found-IsEnded :
      (error_code : String) (error_summary : Text) {u : Unit {0}} {db' : Database}
      → fail_found run_id run error_code error_summary now db ≡ ok (u, db')
      → IsEnded run_id run failed StepStatus.failed (some error_code) now db db'
  unfolding fail_found
  fail_found-IsEnded code summary {db' = db'} h =
      let new : AssessmentRun = record run {
        status = failed;
        error_code = some code;
        error_summary = some (take 2000 summary);
        finished_at = some now;
        version = run.version + 1;
      } in
      let runs : db'.runs ≡ insert run_id new db.runs = ground arith in
      record {
        run' = new;
        ends = refl;
        finished = refl;
        attempt = refl;
        runs = runs;
        steps = ground arith;
        leases = ground arith;
        workers = ground arith;
      }
