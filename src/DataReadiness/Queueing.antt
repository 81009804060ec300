-- ===== src/DataReadiness/Queueing.antt =====
-- How the manifest of data_readiness reaches admission: the run and the request after `apply_ready`,
-- and the test of scheduler/repository.py on the request.
use market_quorum.Prelude.{◌+◌, ◌≡◌, refl, ap, ◌∙◌, true, Option, none, some, arith, if◌then◌else◌}
use market_quorum.Prelude.Table.{lookup, insert, lookup-insert_self}
use market_quorum.Prelude.Json.{Json, Fields, get-update, update}
use market_quorum.Domain.Runs.{RunStatus, waiting_for_data, queued}
use market_quorum.Store.{Database, AssessmentRun, AssessmentRequest, AssessmentDataRequirement}
use market_quorum.Store.Tx.{ok}
use market_quorum.Scheduler.Metadata.{has_verified_data_manifest, is_verified}
use market_quorum.DataReadiness.{DataRequirementClaim, is_waiting_run, is_waiting_status}
use market_quorum.DataReadiness.Spent.{with_locked-eq_true}
use market_quorum.DataReadiness.Provider.{Manifest}
use market_quorum.DataReadiness.Settle.{
  with_manifest, make_ready, ready_request, ready_run, waiting_run, apply_ready,
}

has_verified_data_manifest-update :
    (dump : Json) (fs : Fields)
    → has_verified_data_manifest (update "data_manifest" dump fs) ≡ is_verified (some dump)
unfolding has_verified_data_manifest
has_verified_data_manifest-update dump fs =
    ap is_verified (get-update "data_manifest" "data_manifest" dump fs)

-- The run waited for its data, and is queued with the manifest.
pub record IsQueuedWith (claim : DataRequirementClaim) (dump : Json) (db db' : Database)
    : Type 0 where
  pub run : AssessmentRun
  pub found : lookup claim.run_id db.runs ≡ some run
  pub waited : run.status ≡ waiting_for_data
  pub runs :
      db'.runs
      ≡ insert claim.run_id (record run { status = queued; version = run.version + 1 }) db.runs
  pub request : AssessmentRequest
  pub stored : lookup run.request_id db'.requests ≡ some request
  pub verified : has_verified_data_manifest request.requested_config_json ≡ is_verified (some dump)

waiting_status : (s : RunStatus) → is_waiting_status s ≡ true → s ≡ waiting_for_data
waiting_status waiting_for_data h = refl
waiting_status _ h = ground arith

waiting_run-eq_some :
    (o : Option AssessmentRun) {run : AssessmentRun}
    → (if is_waiting_run o then o else none) ≡ some run
    → (o ≡ some run) × (run.status ≡ waiting_for_data)
waiting_run-eq_some none h = ground arith
waiting_run-eq_some (some r) h = (ground arith, ground (arith, waiting_status r.status))

module _ (claim : DataRequirementClaim) (dump : Json) (m : Manifest) (db : Database) where
  make_ready-requests :
      (r : AssessmentDataRequirement) (run : AssessmentRun) (request : AssessmentRequest)
      {db' : Database}
      → make_ready claim dump m r run request db ≡ ok (true, db')
      → (db'.requests ≡ insert run.request_id (with_manifest dump request) db.requests)
        × (db'.runs
            ≡ insert claim.run_id
                (record run { status = queued; version = run.version + 1 })
                db.runs)
  make_ready-requests r run request h = (ground arith, ground arith)

  make_ready-IsQueuedWith :
      (r : AssessmentDataRequirement) (run : AssessmentRun) (request : AssessmentRequest)
      {db' : Database}
      → waiting_run claim.run_id db ≡ some run
      → make_ready claim dump m r run request db ≡ ok (true, db')
      → IsQueuedWith claim dump db db'
  make_ready-IsQueuedWith r run request w h =
      let (found, waited) = waiting_run-eq_some (lookup claim.run_id db.runs) w in
      let (requests, runs) = make_ready-requests r run request h in
      record {
        run = run;
        found = found;
        waited = waited;
        runs = runs;
        request = with_manifest dump request;
        stored =
            ap (lookup run.request_id) requests ∙ lookup-insert_self run.request_id _ db.requests;
        verified = has_verified_data_manifest-update dump request.requested_config_json;
      }

  ready_request-IsQueuedWith :
      (r : AssessmentDataRequirement) (run : AssessmentRun) (o : Option AssessmentRequest)
      {db' : Database}
      → waiting_run claim.run_id db ≡ some run
      → ready_request claim dump m r run o db ≡ ok (true, db')
      → IsQueuedWith claim dump db db'
  ready_request-IsQueuedWith r run none w h = ground arith
  ready_request-IsQueuedWith r run (some request) w h = make_ready-IsQueuedWith r run request w h

  ready_run-IsQueuedWith :
      (r : AssessmentDataRequirement) (o : Option AssessmentRun) {db' : Database}
      → waiting_run claim.run_id db ≡ o
      → ready_run claim dump m r o db ≡ ok (true, db')
      → IsQueuedWith claim dump db db'
  ready_run-IsQueuedWith r none w h = ground arith
  ready_run-IsQueuedWith r (some run) w h =
      ready_request-IsQueuedWith r run (lookup run.request_id db.requests) w h

  -- Where `apply_ready` returns true, the run of the claim was found and waited for its data; it
  -- is queued now, and the configuration of its request passes admission's test for a verified
  -- manifest exactly when the manifest given passes the part of it for a manifest.
  pub apply_ready-IsQueuedWith :
      {db' : Database}
      → apply_ready claim dump m db ≡ ok (true, db')
      → IsQueuedWith claim dump db db'
  unfolding apply_ready
  apply_ready-IsQueuedWith h =
      let (r, k) =
        with_locked-eq_true claim
          (λ r db. ready_run claim dump m r (waiting_run claim.run_id db) db) db h in
      ready_run-IsQueuedWith r (waiting_run claim.run_id db) refl k
