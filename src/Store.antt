-- ===== src/Store.antt =====
-- The tables of platform/src/tradingng_platform/models that the run life cycle uses, and the
-- transactions on them. Identifiers are numbers, times count microseconds.
pub mod Tx
pub mod Events
pub mod Numbering
use market_quorum.Prelude.{ℕ, Bool, List, Option, String}
use market_quorum.Prelude.Table.{Table}
use market_quorum.Prelude.Text.{Text}
use market_quorum.Prelude.Json.{Json, Fields}
use market_quorum.Domain.Runs.{RunStatus}
use market_quorum.Scheduler.Circuits.{Circuits}

-- models/assessments.py
pub record Instrument : Type 0 where
  pub canonical_ticker : String
  pub asset_type : String

pub record AssessmentBatch : Type 0 where
  pub submitted_by : ℕ
  pub idempotency_key : String
  pub defaults_json : Fields

pub record AssessmentRequest : Type 0 where
  pub batch_id : ℕ
  pub instrument_id : ℕ
  pub analysis_date : ℕ
  pub requested_config_json : Fields

pub record RunConfigSnapshot : Type 0 where
  pub content_json : Json
  pub sha256 : String
  pub gateway_snapshot_id : Option String

pub record AssessmentRun : Type 0 where
  pub request_id : ℕ
  pub attempt : ℕ
  pub status : RunStatus
  pub config_snapshot_id : Option ℕ
  pub retry_of_run_id : Option ℕ
  pub clean_reassessment_of_run_id : Option ℕ
  pub version : ℕ
  pub created_at : ℕ
  pub admitted_at : Option ℕ
  pub started_at : Option ℕ
  pub finished_at : Option ℕ
  pub error_code : Option String
  pub error_summary : Option Text

-- An event type is a text of segments joined by dots.
pub record RunEvent : Type 0 where
  pub run_id : ℕ
  pub sequence : ℕ
  pub event_type : List String
  pub payload_json : Fields

pub data RequirementStatus : Type 0 where
  waiting retry_wait ready failed needs_attention cancelled : RequirementStatus

pub record AssessmentDataRequirement : Type 0 where
  pub run_id : ℕ
  pub provider_request_id : String
  pub external_request_key : String
  pub required_products_json : List String
  pub status : RequirementStatus
  pub progress_json : Json
  pub manifest_snapshot_id : Option String
  pub manifest_sha256 : Option String
  pub next_poll_at : Option ℕ
  pub lease_owner : Option String
  pub lease_expires_at : Option ℕ
  pub last_progress_fingerprint : Option String
  pub version : ℕ
  pub created_at : ℕ

-- models/execution.py
pub data WorkerStatus : Type 0 where
  idle busy : WorkerStatus

pub record Worker : Type 0 where
  pub instance_name : String
  pub status : WorkerStatus
  pub capabilities_json : Fields
  pub pid : ℕ
  pub heartbeat_at : ℕ

-- Keyed by its run, which is unique.
pub record WorkerLease : Type 0 where
  pub worker_id : ℕ
  pub child_pid : Option ℕ
  pub child_pgid : Option ℕ
  pub lease_expires_at : ℕ
  pub heartbeat_at : ℕ

pub data StepStatus : Type 0 where
  running completed failed cancelled : StepStatus

pub record RunStep : Type 0 where
  pub run_id : ℕ
  pub name : String
  pub status : StepStatus
  pub attempt : ℕ
  pub started_at : Option ℕ
  pub finished_at : Option ℕ
  pub error_code : Option String
  pub summary : Option Json

-- auth/principal.py
pub record Principal : Type 0 where
  pub issuer : String
  pub subject : String
  pub actor_type : String
  pub scopes : List String
  pub roles : List String

pub record User : Type 0 where
  pub issuer : String
  pub subject : String

pub record AuditEvent : Type 0 where
  pub actor_type : String
  pub actor_id : String
  pub action : String
  pub object_type : String
  pub object_id : ℕ
  pub request_id : String
  pub metadata_json : Fields

pub record Database : Type 0 where
  pub users : Table User
  pub instruments : Table Instrument
  pub batches : Table AssessmentBatch
  pub requests : Table AssessmentRequest
  pub runs : Table AssessmentRun
  pub snapshots : Table RunConfigSnapshot
  pub requirements : Table AssessmentDataRequirement
  pub workers : Table Worker
  pub leases : Table WorkerLease
  pub steps : List RunStep
  pub events : List RunEvent
  pub audits : List AuditEvent
  pub circuits : Circuits
