-- ===== src/Lifecycle/Stranded.antt =====
-- A run whose cancellation is requested while no worker has it, and which writes leave it alone.
use mathlib.Core.Path.{subst}
use market_quorum.Prelude.{ℕ, ◌≡◌, ◌≢◌, sym, ap, ◌∙◌, Bool, true, false, Option, none, some, arith}
use market_quorum.Prelude.Table.{lookup, insert, lookup-insert_ne, IsUnique, insert-IsUnique}
use market_quorum.Domain.Runs.{RunStatus, queued, cancel_requested, same_status}
use market_quorum.Store.{Database, AssessmentRun, WorkerLease}
use market_quorum.Assessments.Cancel.Outcome.{cancel_target}
use market_quorum.Worker.{is_claimable, held_lease}

pub record IsStranded (run_id : ℕ) (db : Database) : Type 0 where
  pub run : AssessmentRun
  pub stored : lookup run_id db.runs ≡ some run
  pub is_requested : run.status ≡ cancel_requested
  pub unleased : lookup run_id db.leases ≡ none
  pub unique : IsUnique db.runs

pub cancel_moves :
    (s : RunStatus)
    → same_status (cancel_target s) s ≡ false
    → same_status s cancel_requested ≡ false
unfolding same_status
cancel_moves _ h = ground arith

pub held_lease-lookup :
    (worker_id j : ℕ) (db : Database) {lease : WorkerLease}
    → held_lease worker_id j db ≡ some lease
    → lookup j db.leases ≡ some lease
held_lease-lookup worker_id j db h = ground arith

module _ {run_id : ℕ} {db : Database} (s : IsStranded run_id db) where
  -- Neither the run nor its lease is touched.
  pub untouched :
      (db' : Database)
      → db'.runs ≡ db.runs
      → lookup run_id db'.leases ≡ none
      → IsStranded run_id db'
  untouched db' runs leases = record {
    run = s.run;
    stored = ap (lookup run_id) runs ∙ s.stored;
    is_requested = s.is_requested;
    unleased = leases;
    unique = subst IsUnique (sym runs) s.unique;
  }

  -- Another run is written.
  pub other_written :
      (db' : Database) (j : ℕ) (run' : AssessmentRun)
      → run_id ≢ j
      → db'.runs ≡ insert j run' db.runs
      → lookup run_id db'.leases ≡ none
      → IsStranded run_id db'
  other_written db' j run' ne runs leases = record {
    run = s.run;
    stored = ap (lookup run_id) runs ∙ lookup-insert_ne run_id j run' db.runs ne ∙ s.stored;
    is_requested = s.is_requested;
    unleased = leases;
    unique = subst IsUnique (sym runs) (insert-IsUnique j run' db.runs s.unique);
  }

  -- A run that holds a lease is another one, and so is one that is admitted or queued.
  pub leased_differs : (j : ℕ) (lease : WorkerLease) → lookup j db.leases ≡ some lease → run_id ≢ j
  leased_differs j lease e same = absurd_row (ap (λ k. lookup k db.leases) same ∙ e) s.unleased
    where
      absurd_row : {o : Option WorkerLease} → o ≡ some lease → o ≡ none → ⊥
      absurd_row h h' = cc

  pub status_differs :
      (j : ℕ) (run' : AssessmentRun)
      → lookup j db.runs ≡ some run'
      → same_status run'.status cancel_requested ≡ false
      → run_id ≢ j
  unfolding same_status
  status_differs j run' e d same =
      clash (ap (λ k. lookup k db.runs) same ∙ e) s.stored s.is_requested d
    where
      clash :
          {o : Option AssessmentRun} {run : AssessmentRun}
          → o ≡ some run'
          → o ≡ some run
          → run.status ≡ cancel_requested
          → same_status run'.status cancel_requested ≡ false
          → ⊥
      clash e h r d = ground arith

  pub private_statuses : (t : RunStatus) → t ≡ queued → same_status t cancel_requested ≡ false
  unfolding same_status
  private_statuses t e = ground arith

  pub claimable_status :
      (is_locked : ℕ → Bool) (j : ℕ) (run : AssessmentRun)
      → is_claimable is_locked (j, run) ≡ true
      → same_status run.status cancel_requested ≡ false
  unfolding same_status
  claimable_status is_locked j run h = ground arith
