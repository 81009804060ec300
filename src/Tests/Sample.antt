-- ===== src/Tests/Sample.antt =====
-- Tables with two runs of one instrument and one of another, for the tests.
use market_quorum.Prelude.{ℕ, Bool, false, [], ◌∷◌, none}
use market_quorum.Prelude.Json.{str, obj, end, field}
use market_quorum.Domain.Runs.{RunStatus, queued}
use market_quorum.Store.{Database, AssessmentRun, AssessmentRequest, AssessmentBatch, User}
use market_quorum.Store.Tx.{Result, ok, err}
use market_quorum.Scheduler.Policy.{GatewaySnapshot, SystemSnapshot}
use market_quorum.Scheduler.Metadata.{ExecutionMetadata}
use market_quorum.Scheduler.Admission.{LockKey}
use market_quorum.Scheduler.Admission.Admit.{Services}

abbrev pub sample_user : User
sample_user = record { issuer = "idp"; subject = "alice" }

abbrev pub sample_batch : AssessmentBatch
sample_batch = record {
  submitted_by = 1;
  idempotency_key = "k";
  defaults_json =
      field "analysts" (str "market")
        (field "depth" (str "deep") (field "language" (str "English") end));
}

abbrev pub sample_request : ℕ → AssessmentRequest
sample_request instrument_id = record {
  batch_id = 1;
  instrument_id = instrument_id;
  analysis_date = 20000;
  requested_config_json = end;
}

abbrev pub sample_run : ℕ → RunStatus → ℕ → AssessmentRun
sample_run request_id status created_at = record {
  request_id = request_id;
  attempt = 1;
  status = status;
  config_snapshot_id = none;
  retry_of_run_id = none;
  clean_reassessment_of_run_id = none;
  version = 1;
  created_at = created_at;
  admitted_at = none;
  started_at = none;
  finished_at = none;
  error_code = none;
  error_summary = none;
}

-- Runs 11 and 12 are for the first instrument, run 13 for the second.
abbrev pub tables : RunStatus → RunStatus → RunStatus → Database
tables a b c = record {
  users = (1, sample_user) ∷ [];
  instruments =
      (1, record { canonical_ticker = "AAPL"; asset_type = "stock" })
      ∷ (2, record { canonical_ticker = "MSFT"; asset_type = "stock" })
      ∷ [];
  batches = (1, sample_batch) ∷ [];
  requests = (1, sample_request 1) ∷ (2, sample_request 1) ∷ (3, sample_request 2) ∷ [];
  runs = (11, sample_run 1 a 5) ∷ (12, sample_run 2 b 3) ∷ (13, sample_run 3 c 4) ∷ [];
  snapshots = [];
  requirements = [];
  workers = [];
  leases = [];
  steps = [];
  events = [];
  audits = [];
  circuits = record { breakers = []; gateway_samples = []; vendor_samples = [] };
}

abbrev pub sample_gateway : GatewaySnapshot
sample_gateway = record {
  active_completions = 0;
  model = "m";
  reasoning_effort = "high";
  snapshot_id = "g";
  latency_ms = 10;
}

abbrev pub sample_system : SystemSnapshot
sample_system = record {
  cpu_percent = 1000;
  available_memory_gib = 900000;
  available_disk_gib = 900000;
  available_disk_percent = 90000;
  cpu_above_limit_for_two_minutes = false;
}

abbrev pub sample_metadata : ExecutionMetadata
sample_metadata = record {
  root_commit = "r";
  tradingagents_commit = "t";
  prompt_schema_version = "1";
  data_vendors = ("core_stock_apis", "yfinance") ∷ [];
  tool_vendors = [];
  vendor_policies = end;
}

abbrev pub sample_services : Services
sample_services = record {
  digest = λ content. "digest";
  isoformat = λ t. "2024-10-04";
  build_memory = λ ticker date mode db. record {
    mode = mode;
    entry_count = 0;
    snapshot_sha256 = "memory";
    dump = obj end;
  };
}

abbrev pub nothing_held : LockKey → Bool
nothing_held k = false

abbrev pub nothing_locked : ℕ → Bool
nothing_locked id = false

-- The tables after a transaction.
abbrev pub after {ℓ} : {A : Type ℓ} → Result (A × Database) → Database
after (ok (a, db)) = db
after (err e) = tables queued queued queued
