-- ===== src/Tests/Working.antt =====
-- A worker on the sample tables: claims, events, endings, retries and recovery.
use market_quorum.Prelude.{ℕ, ◌≡◌, ◌≢◌, refl, true, false, ◌||◌, [], ◌∷◌, Option, none, some}
use market_quorum.Prelude.Table.{lookup, IsUnique}
use market_quorum.Prelude.Json.{obj, end}
use market_quorum.Domain.Runs.{
  RunStatus, queued, admitted, starting, running_analysts, failed, cancel_requested, cancelled,
  succeeded, is_allowed,
}
use market_quorum.Store.{Database, AssessmentRun, Worker, WorkerLease, StepStatus, idle}
use market_quorum.Store.Tx.{is_ok, Result, ok}
use market_quorum.Worker.{ClaimedRun, claim}
use market_quorum.Worker.Claiming.{IsNext, IsClaimed, claim-IsClaimed, claims-differ}
use market_quorum.Worker.RunnerEvents.{RunnerEvent, stage, persist_runner_event}
use market_quorum.Worker.RunnerEvents.Persisted.{IsPersisted, persist_runner_event-IsPersisted}
use market_quorum.Worker.Finish.{
  finalize_failure, finalize_cancelled, schedule_automatic_retry, is_retryable_error,
}
use market_quorum.Worker.Finish.Over.{IsOver}
use market_quorum.Worker.Finish.Failing.{
  is_found_unfinished, finalize_failure-is_ok, finalize_failure-IsOver, finalize_cancelled-IsOver,
}
use market_quorum.Worker.Finish.Retrying.{
  IsRetried, schedule_automatic_retry-IsRetried, schedule_automatic_retry-once,
}
use market_quorum.Worker.Recovery.{recover_stale_leases}
use market_quorum.Worker.Recovery.Reclaimed.{recover_stale_leases_lem, recovered_run}
use market_quorum.Tests.Sample.{tables, after, sample_run, nothing_locked}

-- Both of the first two runs are admitted, with a configuration, and two workers are idle.
abbrev ready_run : ℕ → ℕ → AssessmentRun
ready_run request_id t = record (sample_run request_id admitted t) {
  config_snapshot_id = some 7;
  admitted_at = some t;
}

abbrev spare_worker : Worker
spare_worker = record {
  instance_name = "w";
  status = idle;
  capabilities_json = end;
  pid = 1;
  heartbeat_at = 0;
}

abbrev ready : Database
ready = record (tables admitted queued admitted) {
  runs = (11, ready_run 1 9) ∷ (13, ready_run 3 8) ∷ [];
  snapshots = (7, record { content_json = obj end; sha256 = "s"; gateway_snapshot_id = none }) ∷ [];
  workers = (1, spare_worker) ∷ (2, spare_worker) ∷ [];
}

ready-IsUnique : IsUnique ready.runs
ready-IsUnique = (refl, (refl, tt))

abbrev claiming : Result (Option ClaimedRun × Database)
claiming = claim nothing_locked 1 100 ready

abbrev thirteen : ClaimedRun
thirteen = record {
  run_id = 13;
  ticker = "MSFT";
  asset_type = "stock";
  analysis_date = 20000;
  snapshot = obj end;
}

abbrev eleven : ClaimedRun
eleven = record {
  run_id = 11;
  ticker = "AAPL";
  asset_type = "stock";
  analysis_date = 20000;
  snapshot = obj end;
}

-- The run that was admitted first goes first.
claiming-eq : claiming ≡ ok (some thirteen, after claiming)
unfolding claim is_allowed
claiming-eq = refl

abbrev claiming_next : Result (Option ClaimedRun × Database)
claiming_next = claim nothing_locked 2 101 (after claiming)

claiming_next-eq : claiming_next ≡ ok (some eleven, after claiming_next)
unfolding claim is_allowed
claiming_next-eq = refl

claim-IsClaimed_example :
    (run : AssessmentRun) × IsNext nothing_locked ready.runs 13 run
    × IsClaimed 1 100 13 run ready (after claiming)
claim-IsClaimed_example = claim-IsClaimed nothing_locked 1 100 ready ready-IsUnique claiming-eq

claims-differ_example : thirteen.run_id ≢ eleven.run_id
claims-differ_example =
    claims-differ nothing_locked nothing_locked 1 2 100 101 ready ready-IsUnique claiming-eq
      claiming_next-eq

-- Worker 1 has run 13; its runner reports the first stage.
abbrev busy_tables : Database
busy_tables = after claiming

abbrev first_stage : RunnerEvent
first_stage = record { sequence = 1; type = stage; name = "running_analysts"; payload = end }

abbrev reporting : Result (RunStatus × Database)
reporting = persist_runner_event 13 first_stage 102 busy_tables

reporting-eq : reporting ≡ ok (running_analysts, after reporting)
unfolding persist_runner_event claim is_allowed
reporting-eq = refl

persist_runner_event-IsPersisted_example :
    IsPersisted 13 first_stage running_analysts busy_tables (after reporting)
persist_runner_event-IsPersisted_example =
    persist_runner_event-IsPersisted 13 first_stage 102 busy_tables reporting-eq

abbrev started : AssessmentRun
started = record (ready_run 3 8) { status = starting; started_at = some 100; version = 2 }

started-found : lookup 13 busy_tables.runs ≡ some started
unfolding claim is_allowed
started-found = refl

starting-fails : (false || is_allowed starting failed) ≡ true
unfolding is_allowed
starting-fails = refl

finalize_failure-IsOver_example :
    (db' : Database) × (finalize_failure 13 "vendor_transient" [] 103 busy_tables ≡ ok (tt, db'))
    × IsOver 13 started failed StepStatus.failed (some "vendor_transient") 103 busy_tables db'
finalize_failure-IsOver_example =
    finalize_failure-IsOver 13 started "vendor_transient" [] 103 busy_tables started-found
      starting-fails

-- Run 11 has not been claimed.
finalize_failure-is_ok_example :
    is_ok (finalize_failure 11 "x" [] 103 busy_tables)
    ≡ is_found_unfinished (lookup 11 busy_tables.runs)
finalize_failure-is_ok_example = finalize_failure-is_ok 11 "x" [] 103 busy_tables

waiting_run-raises : is_ok (finalize_failure 11 "x" [] 103 busy_tables) ≡ false
unfolding finalize_failure claim is_allowed
waiting_run-raises = refl

abbrev asked : AssessmentRun
asked = sample_run 1 cancel_requested 5

finalize_cancelled-IsOver_example :
    (db' : Database) × (finalize_cancelled 11 103 (tables cancel_requested queued queued)
      ≡ ok (tt, db'))
    × IsOver 11 asked cancelled StepStatus.cancelled none 103
        (tables cancel_requested queued queued)
        db'
finalize_cancelled-IsOver_example =
    finalize_cancelled-IsOver 11 asked 103 (tables cancel_requested queued queued) refl refl

abbrev broken : Database
broken = tables failed queued succeeded

abbrev retrying : Result (Option ℕ × Database)
retrying = schedule_automatic_retry 21 22 11 "vendor_transient" 2 200 broken

retrying-eq : retrying ≡ ok (some 22, after retrying)
unfolding schedule_automatic_retry
retrying-eq = refl

schedule_automatic_retry-IsRetried_example :
    (is_retryable_error "vendor_transient" ≡ true) × IsRetried 11 22 2 broken (after retrying)
schedule_automatic_retry-IsRetried_example =
    schedule_automatic_retry-IsRetried 21 22 11 "vendor_transient" 2 200 broken retrying-eq

schedule_automatic_retry-once_example :
    schedule_automatic_retry 23 24 11 "vendor_rate_limit" 5 300 (after retrying)
    ≡ ok (none, after retrying)
schedule_automatic_retry-once_example =
    schedule_automatic_retry-once 21 22 11 "vendor_transient" 2 200 broken 23 24 "vendor_rate_limit"
      5 300 retrying-eq

-- The lease of run 13 runs out and its worker's process is gone.
abbrev old_lease : WorkerLease
old_lease = record {
  worker_id = 1;
  child_pid = none;
  child_pgid = none;
  lease_expires_at = 60_000_100;
  heartbeat_at = 100;
}

held-IsUnique : IsUnique busy_tables.leases
unfolding claim is_allowed
held-IsUnique = (refl, tt)

held-found : lookup 13 busy_tables.leases ≡ some old_lease
unfolding claim is_allowed
held-found = refl

recover_stale_leases_lem_example :
    ◌≡◌ {A = Option AssessmentRun × Option WorkerLease}
      (
        lookup 13
            (recover_stale_leases nothing_locked nothing_locked 70_000_000 busy_tables).2.runs,
        lookup 13
            (recover_stale_leases nothing_locked nothing_locked 70_000_000 busy_tables).2.leases,
      )
      (some (recovered_run false started), none)
recover_stale_leases_lem_example =
    recover_stale_leases_lem nothing_locked 13 nothing_locked 70_000_000 old_lease started
      busy_tables held-IsUnique started-found held-found
