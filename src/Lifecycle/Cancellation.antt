-- ===== src/Lifecycle/Cancellation.antt =====
-- What becomes of an admitted run whose cancellation `AssessmentService.cancel` requests before a worker
-- has claimed it.
use mathlib.Core.Path.{subst}
use market_quorum.Prelude.{
  ℕ, ◌≤◌, ◌≡◌, refl, sym, ap, ◌∙◌, ◌≢◌, Bool, false, none, some, String, arith, inl, inr, All-keep,
}
use market_quorum.Prelude.Table.{
  lookup, insert, lookup-insert_self, lookup-none-All, IsUnique, insert-IsUnique, count_rows-pos,
}
use market_quorum.Domain.Runs.{RunStatus, admitted, cancel_requested, same_status}
use market_quorum.Store.{Database, AssessmentRun, Principal}
use market_quorum.Store.Tx.{ok, ok-eq}
use market_quorum.Scheduler.Admission.{is_active, active_runs}
use market_quorum.Scheduler.Admission.Safety.{admit_one-Outcome}
use market_quorum.Assessments.{RunContext}
use market_quorum.Assessments.Cancel.{cancel}
use market_quorum.Assessments.Cancel.Outcome.{
  IsAuthorized, cancel_target, run_context-found, cancel-IsAuthorized, cancel-IsCancelled,
}
use market_quorum.Worker.Claiming.{claim-IsClaimed}
use market_quorum.Worker.RunnerEvents.Persisted.{persist_runner_event-IsPersisted}
use market_quorum.Worker.Finish.Returned.{finalize_failure-HasEnded, finalize_cancelled-HasEnded}
use market_quorum.Worker.Recovery.{recover_stale_leases}
use market_quorum.Lifecycle.{
  Step, admits, claims, launches, beats, idles, reports, fails, stops, cancels, recovers, Steps,
  here, next,
}
use market_quorum.Lifecycle.Stranded.{IsStranded, untouched}
use market_quorum.Lifecycle.Spared.{
  admitted_other, claimed_other, launched, ended_other, cancelled_any, reported_other, beaten,
  idled, recover_leases-IsStranded, claim-none,
}

recovered :
    {run_id : ℕ} (is_locked is_alive : ℕ → Bool) (now : ℕ) (db : Database)
    → IsStranded run_id db
    → IsStranded run_id (recover_stale_leases is_locked is_alive now db).2
unfolding recover_stale_leases
recovered {run_id} is_locked is_alive now db s =
    recover_leases-IsStranded is_alive _ 0 0 db
      (All-keep (λ (j, _). run_id ≢ j) _ db.leases (lookup-none-All run_id db.leases s.unleased)) s

pub Step-IsStranded :
    {run_id : ℕ} (db db' : Database) → Step db db' → IsStranded run_id db → IsStranded run_id db'
Step-IsStranded db db'
      (admits services policy gateway system metadata routing external is_held is_locked now new_id
        d e)
      s =
    elim (admit_one-Outcome services policy gateway system metadata routing external is_held
      is_locked now new_id db s.unique e) [
        | inl (_, c, a) ↦ admitted_other s db' c a.stored a.marked
        | inr (_, f) ↦ untouched s db' f.runs (ap (lookup _) f.leases ∙ s.unleased)
      ]
Step-IsStranded db db' (claims is_locked worker_id now none e) s =
    subst (IsStranded _) (sym (claim-none is_locked worker_id now db e)) s
Step-IsStranded db db' (claims is_locked worker_id now (some c) e) s =
    let (run, n, claimed) = claim-IsClaimed is_locked worker_id now db s.unique e in
    claimed_other s db' is_locked worker_id now c.run_id run n claimed
Step-IsStranded db db' (launches j pid pgid now e) s = launched s db' j pid pgid now e
Step-IsStranded db db' (beats worker_id j now e) s = beaten s db' worker_id j now e
Step-IsStranded db db' (idles worker_id now e) s = idled s db' worker_id now e
Step-IsStranded db db' (reports j event now lease status held e) s =
    reported_other s db' j event status lease held
      (persist_runner_event-IsPersisted j event now db e)
Step-IsStranded db db' (fails j code summary now lease held e) s =
    ended_other s db' j now lease held (finalize_failure-HasEnded j now db code summary e)
Step-IsStranded db db' (stops j now lease held e) s =
    ended_other s db' j now lease held (finalize_cancelled-HasEnded j now db e)
Step-IsStranded db db' (cancels principal j request_id now run e) s =
    let (context, a) = cancel-IsAuthorized principal j request_id now db e in
    let (run', db1, e', c) = cancel-IsCancelled principal j request_id now db context a in
    subst (IsStranded _) (ok-eq (sym e' ∙ e)).1
      (cancelled_any s db1 j context.run run' (run_context-found j db a.found).0 c)
Step-IsStranded {run_id} db db' (recovers is_locked is_alive now r a e) s =
    subst (λ (_, _, d). IsStranded run_id d) e (recovered is_locked is_alive now db s)

Steps-IsStranded :
    {run_id : ℕ} {db db' : Database} → Steps db db' → IsStranded run_id db → IsStranded run_id db'
Steps-IsStranded here s = s
Steps-IsStranded {db = db} (next {db'} {db''} steps step) s =
    Step-IsStranded db' db'' step (Steps-IsStranded steps s)

stranded_counts : {run_id : ℕ} (db : Database) → IsStranded run_id db → 1 ≤ active_runs db
unfolding active_runs is_active
stranded_counts {run_id} db s =
    count_rows-pos (λ run. is_active run.status) run_id s.run db.runs s.stored
      (ap is_active s.is_requested)

requested_is_other :
    (t s : RunStatus) → t ≡ cancel_requested → s ≡ admitted → same_status t s ≡ false
unfolding same_status
requested_is_other t s e e' = ground arith

-- Where an authorized principal cancels an admitted run that no worker has a lease of, and the
-- keys of the runs are unique, `cancel` returns, and after any steps of admission, of workers on
-- runs that they hold, of recovery and of further cancellations the run's status is still
-- `cancel_requested`, and it still counts as active.
pub cancel_admitted-never_ends :
    (principal : Principal) (run_id : ℕ) (request_id : String) (now : ℕ) (db : Database)
    (context : RunContext)
    → IsAuthorized principal run_id db context
    → context.run.status ≡ admitted
    → lookup run_id db.leases ≡ none
    → IsUnique db.runs
    → (run' : AssessmentRun) × (db' : Database) × (cancel principal run_id request_id now db
        ≡ ok (run', db'))
      × ((db'' : Database)
          → Steps db' db''
          → (run'' : AssessmentRun) × (lookup run_id db''.runs ≡ some run'')
            × (run''.status ≡ cancel_requested)
            × (1 ≤ active_runs db''))
cancel_admitted-never_ends principal run_id request_id now db context a is_admitted unleased
      unique =
    let (run', db', e, c) = cancel-IsCancelled principal run_id request_id now db context a in
    let status : run'.status ≡ cancel_requested = c.status ∙ ap cancel_target is_admitted in
    let moved : same_status run'.status context.run.status ≡ false =
      requested_is_other run'.status context.run.status status is_admitted in
    let runs : db'.runs ≡ insert run_id run' db.runs = c.runs ∙ rw moved refl in
    let s : IsStranded run_id db' = record {
      run = run';
      stored = ap (lookup run_id) runs ∙ lookup-insert_self run_id run' db.runs;
      is_requested = status;
      unleased = ap (lookup run_id) c.leases ∙ unleased;
      unique = subst IsUnique (sym runs) (insert-IsUnique run_id run' db.runs unique);
    } in
    (
      run',
      db',
      e,
      λ db'' steps.
          let t = Steps-IsStranded steps s in
          (t.run, t.stored, t.is_requested, stranded_counts db'' t),
    )
