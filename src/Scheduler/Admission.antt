-- ===== src/Scheduler/Admission.antt =====
-- `SchedulerRepository.admit_one` of platform/src/tradingng_platform/scheduler/repository.py.
-- `is_held` tells which coordination locks, and `is_locked` which rows of runs, other transactions
-- hold: a lock that is held is not waited for, and a locked row is skipped.
pub mod Admit
pub mod Counts
pub mod Frames
pub mod Outcome
pub mod Safety
use market_quorum.Prelude.{
  ℕ, suc, ◌+◌, ◌==◌, Bool, true, false, not, ◌&&◌, ◌||◌, List, [], ◌∷◌, ◌++◌, Option, none, some,
  String, str_eq, if◌then◌else◌, keep, is_some, any,
}
use market_quorum.Prelude.Table.{Table, lookup, insert, count_rows}
use market_quorum.Prelude.Sorted.{key_lt, order_by}
use market_quorum.Prelude.Text.{Text, text_eq, text_lt}
use market_quorum.Prelude.Json.{Json, num, str, obj, bool, Fields, end, field, get, merge}
use market_quorum.Domain.Runs.{
  RunStatus, waiting_for_data, queued, admitted, succeeded, failed, cancelled, needs_attention,
  same_status,
}
use market_quorum.Store.{
  Database, AssessmentRun, AssessmentRequest, Instrument, AssessmentBatch, RunConfigSnapshot,
}
use market_quorum.Store.Tx.{
  Tx, pure, gets, modify, or_raise, raise_unless, assert_transition, ◌>>=◌, ◌>>◌, runtime_error,
  value_error, key_error,
}
use market_quorum.Store.Events.{append_event}
use market_quorum.Scheduler.Policy.{
  AdmissionPolicy, AdmissionDecision, Reason, admission_lock, queue_empty, data_manifest_missing,
  ticker_active, GatewaySnapshot, SystemSnapshot, CapacitySnapshot, evaluate,
}
use market_quorum.Scheduler.Circuits.{Circuits, snapshot_sample}
use market_quorum.Scheduler.Circuits.Probes.{blockers, acquire_expired_probes}
use market_quorum.Scheduler.Metadata.{
  ExecutionMetadata, configured_vendors, manifest_required, has_verified_data_manifest,
}
use market_quorum.Scheduler.Snapshot.{
  MemoryMode, memory_text, parse_memory_mode, parse_json, MemorySnapshot, ModelRoutingPolicy,
  BuiltRunSnapshot, build_run_snapshot,
}
use market_quorum.Assessments.Cancel.{save_run}

-- `ACTIVE_RUN_STATUSES`
unfoldable pub is_active : RunStatus → Bool
is_active waiting_for_data = false
is_active queued = false
is_active succeeded = false
is_active failed = false
is_active cancelled = false
is_active needs_attention = false
is_active _ = true

-- A row of the query for candidates.
pub record Candidate : Type 0 where
  pub run_id : ℕ
  pub run : AssessmentRun
  pub request : AssessmentRequest
  pub instrument : Instrument
  pub batch : AssessmentBatch

unfoldable pub joined_candidate : ℕ → AssessmentRun → Database → Option Candidate
joined_candidate run_id run db = elim (lookup run.request_id db.requests) [
  | none ↦ none
  | some request ↦ elim (lookup request.instrument_id db.instruments) [
    | none ↦ none
    | some instrument ↦ elim (lookup request.batch_id db.batches) [
      | none ↦ none
      | some batch ↦ some record {
        run_id = run_id;
        run = run;
        request = request;
        instrument = instrument;
        batch = batch;
      }
    ]
  ]
]

abbrev pub onto : Option Candidate → List Candidate → List Candidate
onto none cs = cs
onto (some c) cs = c ∷ cs

abbrev pub queue_rows : (ℕ → Bool) → Database → Table AssessmentRun → List Candidate
queue_rows is_locked db [] = []
queue_rows is_locked db ((id, run) ∷ runs) =
    let rest = queue_rows is_locked db runs in
    if same_status run.status queued && not (is_locked id)
    then onto (joined_candidate id run db) rest
    else rest

abbrev pub queue_lt : Candidate → Candidate → Bool
queue_lt a b = key_lt (a.run.created_at, a.run_id) (b.run.created_at, b.run_id)

-- The keys of the coordination locks, "global:admission" and f"ticker:{canonical_ticker}".
pub data LockKey : Type 0 where
  global_admission : LockKey
  ticker_lock : String → LockKey

-- The query `candidates`.
unfoldable pub queued_candidates : (ℕ → Bool) → Database → List Candidate
unfolding joined_candidate same_status order_by
queued_candidates is_locked db = order_by queue_lt (queue_rows is_locked db db.runs)

-- The run's request is for an instrument with the ticker.
unfoldable pub has_ticker :
    String → Table AssessmentRequest → Table Instrument → AssessmentRun → Bool
has_ticker ticker requests instruments run = elim (lookup run.request_id requests) [
  | none ↦ false
  | some request ↦ elim (lookup request.instrument_id instruments) [
    | none ↦ false
    | some instrument ↦ str_eq instrument.canonical_ticker ticker
  ]
]

-- The query `ticker_active`.
unfoldable pub active_on : String → Database → ℕ
unfolding has_ticker is_active
active_on ticker db =
    count_rows (λ run. has_ticker ticker db.requests db.instruments run && is_active run.status)
      db.runs

unfoldable pub active_runs : Database → ℕ
unfolding is_active
active_runs db = count_rows (λ run. is_active run.status) db.runs

abbrev pub is_eligible : (LockKey → Bool) → Database → Candidate → Bool
is_eligible is_held db c =
    not (is_held (ticker_lock c.instrument.canonical_ticker))
    && active_on c.instrument.canonical_ticker db == 0

abbrev pub lacks_manifest : Bool → Candidate → Bool
lacks_manifest required c =
    required && not (has_verified_data_manifest c.request.requested_config_json)

-- The loop over the candidates: the first one that may run, and whether one that was passed over
-- had no manifest.
unfoldable pub select_candidate :
    (LockKey → Bool) → Bool → Database → List Candidate → Bool → Option Candidate × Bool
unfolding active_on has_verified_data_manifest
select_candidate is_held required db [] missing = (none, missing)
select_candidate is_held required db (c ∷ cs) missing =
    let rest = select_candidate is_held required db cs in
    if lacks_manifest required c
    then rest true
    else (if is_eligible is_held db c then (some c, missing) else rest missing)
