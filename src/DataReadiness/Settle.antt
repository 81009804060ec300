-- ===== src/DataReadiness/Settle.antt =====
-- The operations of data_readiness/repository.py on a claim.
use market_quorum.Prelude.{
  ℕ, ◌+◌, Bool, true, false, [], ◌∷◌, Option, none, some, String, str_eq, if◌then◌else◌, take,
}
use market_quorum.Prelude.Table.{lookup, insert}
use market_quorum.Prelude.Text.{Text, codes}
use market_quorum.Prelude.Json.{Json, str, obj, end, field, update, fields_of}
use market_quorum.Domain.Runs.{RunStatus, waiting_for_data, queued, failed, needs_attention}
use market_quorum.Store.{
  Database, AssessmentRun, AssessmentRequest, AssessmentDataRequirement, RequirementStatus,
}
use market_quorum.Store.Tx.{Tx, pure, modify, assert_transition, ◌>>◌}
use market_quorum.Store.Events.{append_event}
use market_quorum.Assessments.Cancel.{save_run}
use market_quorum.DataReadiness.{DataRequirementClaim, locked, save_requirement, is_waiting_run}
use market_quorum.DataReadiness.Provider.{ProviderError, CandidateStatus, Manifest}

-- `_release`
abbrev pub released : Option ℕ → AssessmentDataRequirement → AssessmentDataRequirement
released next_poll_at r = record r {
  next_poll_at = next_poll_at;
  lease_owner = none;
  lease_expires_at = none;
  version = r.version + 1;
}

-- The operations do nothing and return false where the requirement has changed since its claim.
abbrev pub with_locked : DataRequirementClaim → (AssessmentDataRequirement → Tx Bool) → Tx Bool
with_locked claim f db = elim (locked claim db) [ none ↦ pure false db | some r ↦ f r db ]

abbrev pub same_fingerprint : Option String → String → Bool
same_fingerprint none f = false
same_fingerprint (some g) f = str_eq g f

abbrev pub job_of : Option Json → Json
job_of none = obj end
job_of (some job) = job

abbrev pub progressed :
    (Json → String) → CandidateStatus → AssessmentDataRequirement → AssessmentDataRequirement
progressed fingerprint status r = record r {
  progress_json = job_of status.job;
  last_progress_fingerprint = some (fingerprint (job_of status.job));
}

abbrev pub wait_more :
    (Json → String)
    → DataRequirementClaim
    → CandidateStatus
    → Option ℕ
    → AssessmentDataRequirement
    → Tx Bool
wait_more fingerprint claim status next_poll_at r = do
  let progress = job_of status.job
  save_requirement claim.requirement_id (released next_poll_at (progressed fingerprint status r))
  (if same_fingerprint r.last_progress_fingerprint (fingerprint progress)
      then pure tt
      else append_event claim.run_id ("assessment" ∷ "data_progress" ∷ [])
          (field "progress" progress end))
  pure true

-- `fingerprint` is the digest of a document's canonical text.
unfoldable pub apply_waiting :
    (Json → String) → DataRequirementClaim → CandidateStatus → Option ℕ → Tx Bool
unfolding locked
apply_waiting fingerprint claim status next_poll_at =
    with_locked claim (wait_more fingerprint claim status next_poll_at)

-- The run, as long as it waits for its data.
abbrev pub waiting_run : ℕ → Database → Option AssessmentRun
waiting_run run_id db =
    if is_waiting_run (lookup run_id db.runs) then lookup run_id db.runs else none

abbrev pub ready_requirement : Manifest → AssessmentDataRequirement → AssessmentDataRequirement
ready_requirement manifest r = record r {
  status = RequirementStatus.ready;
  progress_json = obj (field "stage" (str "ready") end);
  manifest_snapshot_id = some manifest.snapshot_id;
  manifest_sha256 = some manifest.manifest_sha256;
  lease_owner = none;
  lease_expires_at = none;
  next_poll_at = none;
  version = r.version + 1;
}

abbrev pub with_manifest : Json → AssessmentRequest → AssessmentRequest
with_manifest dump request = record request {
  requested_config_json = update "data_manifest" dump request.requested_config_json;
}

-- The run goes to the queue, with the manifest in its request.
abbrev pub make_ready :
    DataRequirementClaim
    → Json
    → Manifest
    → AssessmentDataRequirement
    → AssessmentRun
    → AssessmentRequest
    → Tx Bool
make_ready claim dump manifest r run request = do
  assert_transition waiting_for_data queued
  modify (λ db. record db {
    requests = insert run.request_id (with_manifest dump request) db.requests;
  })
  save_requirement claim.requirement_id (ready_requirement manifest r)
  save_run claim.run_id (record run { status = queued; version = run.version + 1 })
  append_event claim.run_id ("assessment" ∷ "data_ready" ∷ []) (
      field "snapshot_id" (str manifest.snapshot_id)
        (field "manifest_sha256" (str manifest.manifest_sha256) end))
  append_event claim.run_id ("assessment" ∷ "queued" ∷ []) end
  pure true

abbrev pub ready_request :
    DataRequirementClaim
    → Json
    → Manifest
    → AssessmentDataRequirement
    → AssessmentRun
    → Option AssessmentRequest
    → Tx Bool
ready_request claim dump manifest r run none = pure false
ready_request claim dump manifest r run (some request) =
    make_ready claim dump manifest r run request

abbrev pub ready_run :
    DataRequirementClaim
    → Json
    → Manifest
    → AssessmentDataRequirement
    → Option AssessmentRun
    → Tx Bool
ready_run claim dump manifest r none db = pure false db
ready_run claim dump manifest r (some run) db =
    ready_request claim dump manifest r run (lookup run.request_id db.requests) db

-- `dump` is `status.manifest`, as JSON.
unfoldable pub apply_ready : DataRequirementClaim → Json → Manifest → Tx Bool
unfolding locked update
apply_ready claim dump manifest =
    with_locked claim (λ r db. ready_run claim dump manifest r (waiting_run claim.run_id db) db)

abbrev pub requirement_text : RequirementStatus → String
requirement_text RequirementStatus.failed = "failed"
requirement_text RequirementStatus.needs_attention = "needs_attention"
requirement_text RequirementStatus.waiting = "waiting"
requirement_text RequirementStatus.retry_wait = "retry_wait"
requirement_text RequirementStatus.ready = "ready"
requirement_text RequirementStatus.cancelled = "cancelled"

abbrev pub finished_requirement :
    RequirementStatus → String → AssessmentDataRequirement → AssessmentDataRequirement
finished_requirement status code r = record r {
  status = status;
  progress_json =
      obj (field "stage" (str (requirement_text status)) (field "error_code" (str code) end));
  lease_owner = none;
  lease_expires_at = none;
  next_poll_at = none;
  version = r.version + 1;
}

abbrev pub finish_run :
    DataRequirementClaim
    → RunStatus
    → RequirementStatus
    → String
    → Text
    → ℕ
    → AssessmentDataRequirement
    → AssessmentRun
    → Tx Bool
finish_run claim run_status requirement_status code summary now r run = do
  assert_transition waiting_for_data run_status
  save_requirement claim.requirement_id (finished_requirement requirement_status code r)
  save_run claim.run_id (record run {
    status = run_status;
    error_code = some code;
    error_summary = some (take 500 summary);
    finished_at = some now;
    version = run.version + 1;
  })
  append_event claim.run_id ("assessment" ∷ requirement_text requirement_status ∷ [])
      (field "error_code" (str code) end)
  pure true

abbrev pub finish_waiting :
    DataRequirementClaim
    → RunStatus
    → RequirementStatus
    → String
    → Text
    → ℕ
    → AssessmentDataRequirement
    → Option AssessmentRun
    → Tx Bool
finish_waiting claim run_status requirement_status code summary now r none = pure false
finish_waiting claim run_status requirement_status code summary now r (some run) =
    finish_run claim run_status requirement_status code summary now r run

-- `_finish`
unfoldable pub finish :
    DataRequirementClaim → RunStatus → RequirementStatus → String → Text → ℕ → Tx Bool
unfolding locked
finish claim run_status requirement_status code summary now = with_locked claim (λ r db.
    finish_waiting claim run_status requirement_status code summary now r
      (waiting_run claim.run_id db) db)

unfoldable pub apply_rejected : DataRequirementClaim → Option ProviderError → ℕ → Tx Bool
unfolding finish
apply_rejected claim none now =
    finish claim failed RequirementStatus.failed "data_preparation_failed"
      (codes "StockLean data preparation failed") now
apply_rejected claim (some error) now =
    finish claim failed RequirementStatus.failed error.code error.message now

unfoldable pub apply_attention : DataRequirementClaim → String → ℕ → Tx Bool
unfolding finish
apply_attention claim code now =
    finish claim needs_attention RequirementStatus.needs_attention code
      (codes "StockLean manifest integrity verification failed") now

abbrev pub transient_error : String → AssessmentDataRequirement → AssessmentDataRequirement
transient_error code r = record r {
  progress_json = obj (update "transient_error" (str code) (fields_of (some r.progress_json)));
}

abbrev pub release_row :
    DataRequirementClaim → String → Option ℕ → AssessmentDataRequirement → Tx Bool
release_row claim code next_poll_at r = do
  save_requirement claim.requirement_id (released next_poll_at (transient_error code r))
  pure true

unfoldable pub release_transient : DataRequirementClaim → String → Option ℕ → Tx Bool
unfolding locked update fields_of
release_transient claim code next_poll_at = with_locked claim (release_row claim code next_poll_at)
