-- ===== src/Worker.antt =====
-- platform/src/tradingng_platform/worker/repository.py: claiming runs, leases and heartbeats.
-- `is_locked` tells which rows another transaction has locked: such a row is skipped.
pub mod RunnerEvents
pub mod Finish
pub mod Recovery
pub mod Claiming
use market_quorum.Prelude.{
  ℕ, suc, ◌+◌, ◌*◌, ◌==◌, Bool, true, false, not, ◌&&◌, List, [], ◌∷◌, Option, none, some, String,
  if◌then◌else◌, get_or_else, is_some, keep, first,
}
use market_quorum.Prelude.Table.{Table, lookup, insert}
use market_quorum.Prelude.Sorted.{key_lt, order_by}
use market_quorum.Prelude.Json.{Json, Fields, end}
use market_quorum.Domain.Runs.{RunStatus, admitted, starting, same_status}
use market_quorum.Store.{
  Database, AssessmentRun, AssessmentRequest, Instrument, RunConfigSnapshot, Worker, WorkerLease,
  idle, busy,
}
use market_quorum.Store.Tx.{
  Tx, pure, raise, gets, modify, or_raise, raise_unless, assert_transition, ◌>>=◌, ◌>>◌,
  runtime_error, integrity_error, no_result_found,
}
use market_quorum.Store.Events.{append_event}
use market_quorum.Scheduler.Circuits.{seconds}
use market_quorum.Assessments.Cancel.{save_run, is_cancel_status}

abbrev pub lease_seconds : ℕ
lease_seconds = seconds 60

abbrev pub null_first : Option ℕ → ℕ
null_first none = 0
null_first (some t) = suc t

abbrev pub claim_key : ℕ × AssessmentRun → ℕ × ℕ
claim_key (id, run) = (null_first run.admitted_at, id)

abbrev pub is_claimable : (ℕ → Bool) → ℕ × AssessmentRun → Bool
is_claimable is_locked (id, run) = same_status run.status admitted && not (is_locked id)

-- The row that `claim` selects: the first admitted run that nobody has locked.
unfoldable pub next_admitted : (ℕ → Bool) → Table AssessmentRun → Option (ℕ × AssessmentRun)
unfolding same_status order_by
next_admitted is_locked runs =
    first
      (order_by (λ a b. key_lt (claim_key a) (claim_key b)) (keep (is_claimable is_locked) runs))

pub record ClaimedRun : Type 0 where
  pub run_id : ℕ
  pub ticker : String
  pub asset_type : String
  pub analysis_date : ℕ
  pub snapshot : Json

-- The joins of the second query of `claim`.
unfoldable pub claimed_run : ℕ → AssessmentRun → Database → Option ClaimedRun
claimed_run run_id run db = elim (lookup run.request_id db.requests) [
  | none ↦ none
  | some request ↦ elim (lookup request.instrument_id db.instruments) [
    | none ↦ none
    | some instrument ↦ elim run.config_snapshot_id [
      | none ↦ none
      | some snapshot_id ↦ elim (lookup snapshot_id db.snapshots) [
        | none ↦ none
        | some snapshot ↦ some record {
          run_id = run_id;
          ticker = instrument.canonical_ticker;
          asset_type = instrument.asset_type;
          analysis_date = request.analysis_date;
          snapshot = snapshot.content_json;
        }
      ]
    ]
  ]
]

abbrev pub update_worker : ℕ → (Worker → Worker) → Table Worker → Table Worker
update_worker worker_id f workers = elim (lookup worker_id workers) [
  | none ↦ workers
  | some w ↦ insert worker_id (f w) workers
]

abbrev pub new_lease : ℕ → ℕ → WorkerLease
new_lease worker_id now = record {
  worker_id = worker_id;
  child_pid = none;
  child_pgid = none;
  lease_expires_at = now + lease_seconds;
  heartbeat_at = now;
}

-- What `claim` does with the run that it selects.
unfoldable pub claim_run : ℕ → ℕ → ℕ → AssessmentRun → Tx ClaimedRun
unfolding claimed_run
claim_run worker_id now run_id run = do
  claim ← or_raise (← gets (claimed_run run_id run)) no_result_found
  assert_transition run.status starting
  save_run run_id (record run {
    status = starting;
    started_at = some (get_or_else run.started_at now);
    version = run.version + 1;
  })
  leased ← gets (λ db. lookup run_id db.leases)
  raise_unless (not (is_some leased)) (integrity_error "worker_leases.run_id")
  modify (λ db. record db { leases = insert run_id (new_lease worker_id now) db.leases })
  modify (λ db. record db {
    workers =
        update_worker worker_id (λ w. record w { status = busy; heartbeat_at = now }) db.workers;
  })
  append_event run_id ("assessment" ∷ "starting" ∷ []) end
  pure claim

abbrev pub claim_next : ℕ → ℕ → Option (ℕ × AssessmentRun) → Tx (Option ClaimedRun)
claim_next worker_id now none = pure none
claim_next worker_id now (some (run_id, run)) =
    claim_run worker_id now run_id run >>= λ c. pure (some c)

unfoldable pub claim : (ℕ → Bool) → ℕ → ℕ → Tx (Option ClaimedRun)
unfolding next_admitted claim_run
claim is_locked worker_id now db = claim_next worker_id now (next_admitted is_locked db.runs) db

unfoldable pub set_child_identity : ℕ → ℕ → ℕ → ℕ → Tx (Unit {0})
set_child_identity run_id pid pgid now = do
  lease ←
      or_raise (← gets (λ db. lookup run_id db.leases))
        (runtime_error "worker lease disappeared before child launch")
  modify (λ db. record db {
    leases =
        insert run_id
          (record lease { child_pid = some pid; child_pgid = some pgid; heartbeat_at = now })
          db.leases;
  })

-- The lease of the run, if the worker holds it.
abbrev pub held_lease : ℕ → ℕ → Database → Option WorkerLease
held_lease worker_id run_id db = elim (lookup run_id db.leases) [
  | none ↦ none
  | some lease ↦ if lease.worker_id == worker_id then some lease else none
]

unfoldable pub heartbeat : ℕ → ℕ → ℕ → Tx (Unit {0})
heartbeat worker_id run_id now = do
  modify (λ db. record db {
    workers = update_worker worker_id (λ w. record w { heartbeat_at = now }) db.workers;
  })
  lease ←
      or_raise (← gets (held_lease worker_id run_id))
        (runtime_error "worker lease heartbeat target is missing")
  modify (λ db. record db {
    leases =
        insert run_id (record lease { heartbeat_at = now; lease_expires_at = now + lease_seconds })
          db.leases;
  })

unfoldable pub heartbeat_idle : ℕ → ℕ → Tx (Unit {0})
heartbeat_idle worker_id now = do
  w ←
      or_raise (← gets (λ db. lookup worker_id db.workers))
        (runtime_error "idle worker heartbeat target is missing")
  modify (λ db. record db {
    workers = insert worker_id (record w { status = idle; heartbeat_at = now }) db.workers;
  })

unfoldable pub is_cancel_requested : ℕ → Database → Bool
is_cancel_requested run_id db = elim (lookup run_id db.runs) [
  | none ↦ false
  | some run ↦ is_cancel_status run.status
]
