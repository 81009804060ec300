-- ===== src/Lifecycle.antt =====
-- How the parts of the platform act on the tables that they share: one step is one transaction of the
-- scheduler, of a worker, of a recovery or of a caller of the API.
pub mod Stranded
pub mod Spared
pub mod Cancellation
use market_quorum.Prelude.{ℕ, Bool, List, ◌≡◌, Option, none, some, String}
use market_quorum.Prelude.Table.{lookup}
use market_quorum.Prelude.Text.{Text}
use market_quorum.Store.{Database, WorkerLease, Principal, AssessmentRun}
use market_quorum.Store.Tx.{ok}
use market_quorum.Domain.Runs.{RunStatus}
use market_quorum.Scheduler.Policy.{
  AdmissionPolicy, AdmissionDecision, GatewaySnapshot, SystemSnapshot,
}
use market_quorum.Scheduler.Metadata.{ExecutionMetadata}
use market_quorum.Scheduler.Snapshot.{ModelRoutingPolicy}
use market_quorum.Scheduler.Admission.{LockKey}
use market_quorum.Scheduler.Admission.Admit.{Services, admit_one}
use market_quorum.Assessments.Cancel.{cancel}
use market_quorum.Worker.{
  ClaimedRun, claim, heartbeat, heartbeat_idle, held_lease, set_child_identity,
}
use market_quorum.Worker.RunnerEvents.{RunnerEvent, persist_runner_event}
use market_quorum.Worker.Finish.{finalize_failure, finalize_cancelled}
use market_quorum.Worker.Recovery.{recover_stale_leases}

-- A worker reports on a run only while it holds the run's lease.
pub data Step (db db' : Database) : Type 0 where
  admits :
      (services : Services) (policy : AdmissionPolicy) (gateway : GatewaySnapshot)
      (system : SystemSnapshot) (metadata : ExecutionMetadata) (routing : Option ModelRoutingPolicy)
      (external : List Text) (is_held : LockKey → Bool) (is_locked : ℕ → Bool) (now new_id : ℕ)
      (d : AdmissionDecision)
      → admit_one services policy gateway system metadata routing external is_held is_locked now
          new_id db
        ≡ ok (d, db')
      → Step db db'
  claims :
      (is_locked : ℕ → Bool) (worker_id now : ℕ) (c : Option ClaimedRun)
      → claim is_locked worker_id now db ≡ ok (c, db')
      → Step db db'
  launches :
      (run_id pid pgid now : ℕ)
      → set_child_identity run_id pid pgid now db ≡ ok (tt, db')
      → Step db db'
  beats :
      (worker_id run_id now : ℕ) → heartbeat worker_id run_id now db ≡ ok (tt, db') → Step db db'
  idles : (worker_id now : ℕ) → heartbeat_idle worker_id now db ≡ ok (tt, db') → Step db db'
  reports :
      (run_id : ℕ) (event : RunnerEvent) (now : ℕ) (lease : WorkerLease) (s : RunStatus)
      → lookup run_id db.leases ≡ some lease
      → persist_runner_event run_id event now db ≡ ok (s, db')
      → Step db db'
  fails :
      (run_id : ℕ) (code : String) (summary : Text) (now : ℕ) (lease : WorkerLease)
      → lookup run_id db.leases ≡ some lease
      → finalize_failure run_id code summary now db ≡ ok (tt, db')
      → Step db db'
  stops :
      (run_id now : ℕ) (lease : WorkerLease)
      → lookup run_id db.leases ≡ some lease
      → finalize_cancelled run_id now db ≡ ok (tt, db')
      → Step db db'
  cancels :
      (principal : Principal) (run_id : ℕ) (request_id : String) (now : ℕ) (run : AssessmentRun)
      → cancel principal run_id request_id now db ≡ ok (run, db')
      → Step db db'
  recovers :
      (is_locked is_alive : ℕ → Bool) (now reclaimed attention : ℕ)
      → recover_stale_leases is_locked is_alive now db ≡ (reclaimed, attention, db')
      → Step db db'

pub data Steps (db : Database) : Database → Type 0 where
  here : Steps db db
  next : {db' db'' : Database} → Steps db db' → Step db' db'' → Steps db db''
