-- ===== src/Worker/Finish/Retrying.antt =====
-- `schedule_automatic_retry` of worker/repository.py: when it makes a retry, and that it makes one.
use market_quorum.Prelude.{
  ℕ, ◌+◌, ◌≤◌, ◌≡◌, refl, ap, ◌∙◌, leb, Bool, true, false, not, ◌&&◌, ◌||◌, [], ◌∷◌, Option, none,
  some, String, arith, if◌then◌else◌, Bool-cases, inl, inr,
}
use market_quorum.Prelude.Table.{Table, lookup, insert, count_rows}
use market_quorum.Domain.Runs.{failed, queued, same_status}
use market_quorum.Store.{Database, AssessmentRun}
use market_quorum.Store.Tx.{Tx, ok, pure, >>=-eq-ok, branch-eq, or_raise-eq-ok, runtime_error}
use market_quorum.Assessments.{RunContext, run_context, create_retry, new_run}
use market_quorum.Assessments.Cancel.Outcome.{run_context-found}
use market_quorum.Worker.Finish.{
  is_retryable_error, points_to, has_retry, may_retry, create_and_log, log_retry, retry_context,
  schedule_automatic_retry,
}

-- How many runs are retries of the run.
abbrev pub retries_of : ℕ → Table AssessmentRun → ℕ
retries_of run_id = count_rows (λ run. points_to run_id run.retry_of_run_id)

has_retry-retries_of :
    (run_id : ℕ) (runs : Table AssessmentRun)
    → has_retry run_id runs ≡ false
    → retries_of run_id runs ≡ 0
has_retry-retries_of run_id [] h = refl
has_retry-retries_of run_id (r ∷ runs) h = ground (arith, has_retry-retries_of run_id runs)

has_retry-insert :
    (run_id j : ℕ) (run : AssessmentRun) (runs : Table AssessmentRun)
    → points_to run_id run.retry_of_run_id ≡ true
    → has_retry run_id (insert j run runs) ≡ true
has_retry-insert run_id j run [] h = ground arith
has_retry-insert run_id j run (r ∷ runs) h = ground (arith, has_retry-insert run_id j run runs h)

create_retry-runs :
    (request_id retry_id : ℕ) (context : RunContext) (now : ℕ) (db : Database) {run : AssessmentRun}
    {db' : Database}
    → create_retry request_id retry_id context none queued none now db ≡ ok (run, db')
    → (run ≡ new_run request_id (context.run.attempt + 1) queued (some context.run_id) none now)
      × (db'.runs ≡ insert retry_id run db.runs)
unfolding create_retry
create_retry-runs request_id retry_id context now db h = (ground arith, ground arith)

-- The run had failed within its limit, and has its first and only retry.
pub record IsRetried (run_id retry_id max_retries : ℕ) (db db' : Database) : Type 0 where
  pub run : AssessmentRun
  pub found : lookup run_id db.runs ≡ some run
  pub has_failed : same_status run.status failed ≡ true
  pub within : run.attempt ≤ max_retries
  pub retry : AssessmentRun
  pub runs : db'.runs ≡ insert retry_id retry db.runs
  pub attempt : retry.attempt ≡ run.attempt + 1
  pub is_queued : retry.status ≡ queued
  pub points : retry.retry_of_run_id ≡ some run_id
  pub first : retries_of run_id db.runs ≡ 0

may_retry-lem :
    (o : Option AssessmentRun) (max_retries : ℕ) {run : AssessmentRun}
    → o ≡ some run
    → may_retry o max_retries ≡ true
    → (same_status run.status failed ≡ true) × (run.attempt ≤ max_retries)
may_retry-lem none max_retries e h = cc
may_retry-lem (some r) max_retries e h = (ground arith, ground (arith, e, h))

none_allowed :
    (may : Bool) (m : Tx (Option ℕ)) (db : Database)
    → (if may && false then m else pure none) db ≡ ok (none, db)
none_allowed may m db = ground arith

module _ (request_id retry_id run_id : ℕ) (code : String) (max_retries now : ℕ)
    (db : Database) where
  logged-runs :
      (run : AssessmentRun) (db1 : Database) {o : Option ℕ} {db' : Database}
      → log_retry run_id retry_id code max_retries run db1 ≡ ok (o, db')
      → (db'.runs ≡ db1.runs) × (o ≡ some retry_id)
  logged-runs run db1 h = (ground arith, ground arith)

  create_and_log-IsRetried :
      {o : Option ℕ} {db' : Database}
      → may_retry (lookup run_id db.runs) max_retries ≡ true
      → has_retry run_id db.runs ≡ false
      → create_and_log request_id retry_id run_id code max_retries now db ≡ ok (o, db')
      → IsRetried run_id retry_id max_retries db db' × (o ≡ some retry_id)
  create_and_log-IsRetried {db' = db'} may unretried h =
      let (context, e, k) =
        or_raise-eq-ok (run_context run_id db)
          (runtime_error "automatic retry references an incomplete run context")
          (retry_context request_id retry_id run_id code max_retries now) db h in
      let (found, named) = run_context-found run_id db e in
      let (retry, db1, m, k) =
        >>=-eq-ok (create_retry request_id retry_id context none queued none now)
          (log_retry run_id retry_id code max_retries) db k in
      let (new, runs) = create_retry-runs request_id retry_id context now db m in
      let (kept, result) = logged-runs retry db1 k in
      let (has_failed, within) = may_retry-lem (lookup run_id db.runs) max_retries found may in
      (
        record {
          run = context.run;
          found = found;
          has_failed = has_failed;
          within = within;
          retry = retry;
          runs = kept ∙ runs;
          attempt = ap (λ r. r.attempt) new;
          is_queued = ap (λ r. r.status) new;
          points = ap (λ r. r.retry_of_run_id) new ∙ ap some named;
          first = has_retry-retries_of run_id db.runs unretried;
        },
        result,
      )

  abbrev retry_step : Tx (Option ℕ)
  retry_step =
      if may_retry (lookup run_id db.runs) max_retries && not (has_retry run_id db.runs)
      then create_and_log request_id retry_id run_id code max_retries now
      else pure none

  -- Where `schedule_automatic_retry` makes a retry, the error code is one that is retried, and
  -- the run was found, had failed, had an attempt within the limit and had no retry; the new run
  -- is queued, points to the run and has the next attempt, and no other run changes.
  pub schedule_automatic_retry-IsRetried :
      {id : ℕ} {db' : Database}
      → schedule_automatic_retry request_id retry_id run_id code max_retries now db
        ≡ ok (some id, db')
      → (is_retryable_error code ≡ true) × IsRetried run_id retry_id max_retries db db'
  unfolding schedule_automatic_retry
  schedule_automatic_retry-IsRetried h =
      elim (branch-eq (not (is_retryable_error code) || leb max_retries 0) (pure none) _ db h) [
        | inl (_, k) ↦ ground arith
        | inr (retryable, k) ↦
            elim (branch-eq
              (may_retry (lookup run_id db.runs) max_retries && not (has_retry run_id db.runs)) _
              (pure none) db k) [
                | inl (may, k) ↦
                    (ground arith, (create_and_log-IsRetried (ground arith) (ground arith) k).0)
                | inr (_, k) ↦ ground arith
              ]
      ]

  -- Once `schedule_automatic_retry` has made a retry of a run, a further call for the run makes
  -- none and changes nothing, whatever its error code and limit.
  pub schedule_automatic_retry-once :
      (request_id' retry_id' : ℕ) (code' : String) (max_retries' now' : ℕ) {id : ℕ} {db' : Database}
      → schedule_automatic_retry request_id retry_id run_id code max_retries now db
        ≡ ok (some id, db')
      → schedule_automatic_retry request_id' retry_id' run_id code' max_retries' now' db'
        ≡ ok (none, db')
  unfolding schedule_automatic_retry
  schedule_automatic_retry-once request_id' retry_id' code' max_retries' now' {db' = db'} h =
      let r = (schedule_automatic_retry-IsRetried h).1 in
      let again : has_retry run_id db'.runs ≡ true =
        ap (has_retry run_id) r.runs
        ∙ has_retry-insert run_id retry_id r.retry db.runs (ground (arith, r.points)) in
      elim (Bool-cases (not (is_retryable_error code') || leb max_retries' 0)) [
        | inl stops ↦ rw stops refl
        | inr goes ↦
            rw (goes, again) (none_allowed (may_retry (lookup run_id db'.runs) max_retries') _ db')
      ]
