-- ===== src/Assessments.antt =====
-- platform/src/tradingng_platform/assessments/repository.py: creating runs.
pub mod Cancel
pub mod Delete
pub mod Resolve
use market_quorum.Prelude.{
  ℕ, ◌+◌, Bool, true, false, List, [], ◌∷◌, Option, none, some, String, if◌then◌else◌, get_or_else,
}
use market_quorum.Prelude.Table.{lookup, insert}
use market_quorum.Prelude.Json.{Json, num, str, Fields, end, field}
use market_quorum.Domain.Runs.{RunStatus, queued}
use market_quorum.Store.{
  Database, AssessmentRun, AssessmentRequest, AssessmentBatch, Instrument, User,
  AssessmentDataRequirement, waiting,
}
use market_quorum.Store.Tx.{Tx, pure, gets, modify, or_raise, ◌>>=◌, ◌>>◌, runtime_error}
use market_quorum.Store.Events.{append_event}

-- `RunContext`
pub record RunContext : Type 0 where
  pub run_id : ℕ
  pub run : AssessmentRun
  pub request : AssessmentRequest
  pub instrument : Instrument
  pub batch : AssessmentBatch
  pub owner : User

-- The inner joins of `get_run_context`.
unfoldable pub run_context : ℕ → Database → Option RunContext
run_context run_id db = elim (lookup run_id db.runs) [
  | none ↦ none
  | some run ↦ elim (lookup run.request_id db.requests) [
    | none ↦ none
    | some request ↦ elim (lookup request.instrument_id db.instruments) [
      | none ↦ none
      | some instrument ↦ elim (lookup request.batch_id db.batches) [
        | none ↦ none
        | some batch ↦ elim (lookup batch.submitted_by db.users) [
          | none ↦ none
          | some owner ↦ some record {
            run_id = run_id;
            run = run;
            request = request;
            instrument = instrument;
            batch = batch;
            owner = owner;
          }
        ]
      ]
    ]
  ]
]

-- The dictionary `data_requirement` of the service.
pub record RequirementSpec : Type 0 where
  pub provider_request_id : String
  pub external_request_key : String
  pub required_products : List String
  pub progress : Json

abbrev pub new_requirement : ℕ → RequirementSpec → ℕ → AssessmentDataRequirement
new_requirement run_id spec now = record {
  run_id = run_id;
  provider_request_id = spec.provider_request_id;
  external_request_key = spec.external_request_key;
  required_products_json = spec.required_products;
  status = waiting;
  progress_json = spec.progress;
  manifest_snapshot_id = none;
  manifest_sha256 = none;
  next_poll_at = some now;
  lease_owner = none;
  lease_expires_at = none;
  last_progress_fingerprint = none;
  version = 1;
  created_at = now;
}

abbrev pub new_run : ℕ → ℕ → RunStatus → Option ℕ → Option ℕ → ℕ → AssessmentRun
new_run request_id attempt status retry_of clean_of now = record {
  request_id = request_id;
  attempt = attempt;
  status = status;
  config_snapshot_id = none;
  retry_of_run_id = retry_of;
  clean_reassessment_of_run_id = clean_of;
  version = 1;
  created_at = now;
  admitted_at = none;
  started_at = none;
  finished_at = none;
  error_code = none;
  error_summary = none;
}

-- The requirement's row, whose identifier comes with it, and the first event of a new run.
abbrev pub open_run :
    ℕ → Option (ℕ × RequirementSpec) → Fields → (Json → Fields) → ℕ → Tx (Unit {0})
open_run run_id none queued_payload waiting_payload now =
    append_event run_id ("assessment" ∷ "queued" ∷ []) queued_payload
open_run run_id (some (id, spec)) queued_payload waiting_payload now = do
  modify (λ db. record db {
    requirements = insert id (new_requirement run_id spec now) db.requirements;
  })
  append_event run_id ("assessment" ∷ "waiting_for_data" ∷ []) (waiting_payload spec.progress)

-- `create_request_and_run`; the two identifiers are those that the tables generate.
unfoldable pub create_request_and_run :
    ℕ → ℕ → ℕ → ℕ → ℕ → Fields → RunStatus → Option (ℕ × RequirementSpec) → ℕ → Tx ℕ
create_request_and_run request_id run_id batch_id instrument_id analysis_date config status spec
      now =
    do
      modify (λ db. record db {
        requests =
            insert request_id
              (record {
                batch_id = batch_id;
                instrument_id = instrument_id;
                analysis_date = analysis_date;
                requested_config_json = config;
              })
              db.requests;
      })
      modify (λ db. record db {
        runs = insert run_id (new_run request_id 1 status none none now) db.runs;
      })
      open_run run_id spec end (λ progress. field "progress" progress end) now
      pure run_id

-- `create_retry`; its callers pass the request's own configuration where `request_config` is none.
unfoldable pub create_retry :
    ℕ
    → ℕ
    → RunContext
    → Option Fields
    → RunStatus
    → Option (ℕ × RequirementSpec)
    → ℕ
    → Tx AssessmentRun
create_retry request_id run_id context request_config status spec now = do
  modify (λ db. record db {
    requests =
        insert request_id
          (record context.request {
            requested_config_json =
                get_or_else request_config context.request.requested_config_json;
          })
          db.requests;
  })
  let run = new_run request_id (context.run.attempt + 1) status (some context.run_id) none now
  modify (λ db. record db { runs = insert run_id run db.runs })
  open_run run_id spec (field "retry_of_run_id" (num context.run_id) end)
      (λ progress. field "retry_of_run_id" (num context.run_id) (field "progress" progress end)) now
  pure run
