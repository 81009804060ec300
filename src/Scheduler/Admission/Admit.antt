-- ===== src/Scheduler/Admission/Admit.antt =====
-- `admit_one` of scheduler/repository.py, from the lock to the admitted run.
use market_quorum.Prelude.{
  ℕ, ◌+◌, ◌==◌, Bool, true, false, List, [], ◌∷◌, ◌++◌, Option, none, some, String, str_eq,
  if◌then◌else◌, any,
}
use market_quorum.Prelude.Table.{Table, insert}
use market_quorum.Prelude.Sorted.{order_by}
use market_quorum.Prelude.Text.{Text, text_eq, text_lt}
use market_quorum.Prelude.Json.{Json, num, str, obj, bool, Fields, end, field, get, merge}
use market_quorum.Domain.Runs.{admitted}
use market_quorum.Store.{Database, RunConfigSnapshot}
use market_quorum.Store.Tx.{
  Tx, pure, gets, modify, or_raise, raise_unless, assert_transition, ◌>>=◌, ◌>>◌, runtime_error,
  value_error, key_error,
}
use market_quorum.Store.Events.{append_event}
use market_quorum.Scheduler.Policy.{
  AdmissionPolicy, AdmissionDecision, Reason, admission_lock, queue_empty, data_manifest_missing,
  ticker_active, GatewaySnapshot, SystemSnapshot, CapacitySnapshot, evaluate,
}
use market_quorum.Scheduler.Circuits.{Circuits, snapshot_sample}
use market_quorum.Scheduler.Circuits.Probes.{blockers, acquire_expired_probes}
use market_quorum.Scheduler.Metadata.{ExecutionMetadata, configured_vendors, manifest_required}
use market_quorum.Scheduler.Snapshot.{
  MemoryMode, memory_text, parse_memory_mode, parse_json, MemorySnapshot, ModelRoutingPolicy,
  BuiltRunSnapshot, build_run_snapshot,
}
use market_quorum.Assessments.Cancel.{save_run}
use market_quorum.Scheduler.Admission.{
  LockKey, global_admission, Candidate, queued_candidates, select_candidate, active_runs,
}

abbrev pub refuse : Reason → AdmissionDecision
refuse r = record { allowed = false; reasons = r ∷ [] }

abbrev unique : List Text → List Text
unique [] = []
unique (n ∷ ns) = let rest = unique ns in if any (text_eq n) ns then rest else n ∷ rest

-- What the source calls and this model is given: SHA-256 of a document's canonical text, the text
-- of a date, and the history that a run may see.
pub record Services : Type 0 where
  pub digest : Json → String
  pub isoformat : ℕ → String
  pub build_memory : String → ℕ → MemoryMode → Database → MemorySnapshot

abbrev required_key : String → Fields → Tx Json
required_key key defaults = or_raise (get key defaults) (key_error key)

-- The mode in the batch's defaults, which may lack it.
abbrev pub memory_mode_of : Option Json → Option MemoryMode
memory_mode_of none = some MemoryMode.independent
memory_mode_of v = parse_json parse_memory_mode v

-- `request_config`
unfoldable pub request_config : Services → Candidate → MemoryMode → Tx Fields
unfolding get merge
request_config services c mode = do
  analysts ← required_key "analysts" c.batch.defaults_json
  depth ← required_key "depth" c.batch.defaults_json
  language ← required_key "language" c.batch.defaults_json
  pure (
      merge
        (field "ticker" (str c.instrument.canonical_ticker) (
          field "asset_type" (str c.instrument.asset_type) (
            field "analysis_date" (str (services.isoformat c.request.analysis_date)) (
              field "analysts" analysts (
                field "depth" depth (
                  field "memory_mode" (str (memory_text mode)) (field "language" language end)))))))
        c.request.requested_config_json)

abbrev find_snapshot : String → Table RunConfigSnapshot → Option ℕ
find_snapshot sha256 [] = none
find_snapshot sha256 ((id, s) ∷ rest) =
    if str_eq s.sha256 sha256 then some id else find_snapshot sha256 rest

-- The stored snapshot with the digest; `new_id` is the identifier of a new row.
unfoldable pub pin_snapshot : ℕ → BuiltRunSnapshot → GatewaySnapshot → Tx ℕ
pin_snapshot new_id built gateway db = elim (find_snapshot built.sha256 db.snapshots) [
  | some id ↦ pure id db
  | none ↦ pure new_id (record db {
    snapshots =
        insert new_id
          (record {
            content_json = built.content;
            sha256 = built.sha256;
            gateway_snapshot_id = some gateway.snapshot_id;
          })
          db.snapshots;
  })
]

abbrev pins : ℕ → Option ℕ → Bool
pins id none = true
pins id (some other) = other == id

-- From the transition to the event: the run becomes admitted.
unfoldable pub mark_admitted : Candidate → ℕ → BuiltRunSnapshot → MemorySnapshot → ℕ → Tx (Unit {0})
mark_admitted c snapshot_id built memory now = do
  raise_unless (pins snapshot_id c.run.config_snapshot_id)
      (runtime_error "run configuration snapshot is already pinned")
  assert_transition c.run.status admitted
  save_run c.run_id (record c.run {
    config_snapshot_id = some snapshot_id;
    status = admitted;
    admitted_at = some now;
    version = c.run.version + 1;
  })
  append_event c.run_id ("assessment" ∷ "admitted" ∷ []) (
      field "config_snapshot_sha256" (str built.sha256) (
        field "memory_mode" (str (memory_text memory.mode)) (
          field "memory_entry_count" (num memory.entry_count)
            (field "memory_snapshot_sha256" (str memory.snapshot_sha256) end))))

-- What is done with the candidate once the limits allow it, from the last step backwards.
abbrev pub admit_snapshot :
    Candidate → GatewaySnapshot → ℕ → ℕ → MemorySnapshot → BuiltRunSnapshot → Tx (Unit {0})
admit_snapshot c gateway new_id now memory built = do
  snapshot_id ← pin_snapshot new_id built gateway
  mark_admitted c snapshot_id built memory now

module _ (services : Services) (c : Candidate) (gateway : GatewaySnapshot)
    (metadata : ExecutionMetadata) (routing : Option ModelRoutingPolicy) (new_id now : ℕ) where
  abbrev pub memory_of : MemoryMode → Database → MemorySnapshot
  memory_of = services.build_memory c.instrument.canonical_ticker c.request.analysis_date

  abbrev pub admit_configured : MemoryMode → Fields → Tx (Unit {0})
  admit_configured mode config = do
    memory ← gets (memory_of mode)
    built ←
        or_raise (build_run_snapshot services.digest config gateway metadata memory routing)
          (value_error "Depth")
    admit_snapshot c gateway new_id now memory built

  abbrev pub admit_in_mode : MemoryMode → Tx (Unit {0})
  admit_in_mode mode = request_config services c mode >>= admit_configured mode

  unfoldable pub admit_candidate : Tx (Unit {0})
  unfolding request_config pin_snapshot mark_admitted build_run_snapshot parse_memory_mode get
  admit_candidate = do
    mode ←
        or_raise (memory_mode_of (get "memory_mode" c.batch.defaults_json))
          (value_error "MemoryMode")
    admit_in_mode mode

-- `detail_json` of the sample that admission records.
abbrev system_detail : SystemSnapshot → Fields
system_detail s =
    field "system"
      (obj (
        field "cpu_percent" (num s.cpu_percent) (
          field "available_memory_gib" (num s.available_memory_gib) (
            field "available_disk_gib" (num s.available_disk_gib) (
              field "available_disk_percent" (num s.available_disk_percent) (
                field "cpu_above_limit_for_two_minutes" (bool s.cpu_above_limit_for_two_minutes)
                  end))))))
      end

unfoldable pub record_sample : GatewaySnapshot → SystemSnapshot → ℕ → Database → Database
record_sample gateway system now db = record db {
  circuits = record db.circuits {
    gateway_samples =
        db.circuits.gateway_samples
        ++ snapshot_sample true gateway.latency_ms (system_detail system) now (some gateway) ∷ [];
  };
}

-- The readings on which the policy decides.
unfoldable pub capacity :
    ExecutionMetadata
    → GatewaySnapshot
    → SystemSnapshot
    → List Text
    → ℕ
    → Database
    → Option (CapacitySnapshot Text)
unfolding blockers configured_vendors active_runs text_eq
capacity metadata gateway system external now db =
    elim (blockers now (some (configured_vendors metadata)) db.circuits) [
      | none ↦ none
      | some persisted ↦ some record {
        active_runs = active_runs db;
        gateway = gateway;
        system = system;
        open_circuits = order_by text_lt (unique (persisted ++ external));
      }
    ]

abbrev set_circuits : Option (List Text × Circuits) → Tx (Unit {0})
set_circuits none db = or_raise none (value_error "vendor name") db
set_circuits (some (_, c)) db = modify (λ db. record db { circuits = c }) db

unfoldable pub take_probes : ExecutionMetadata → ℕ → Tx (Unit {0})
unfolding acquire_expired_probes configured_vendors
take_probes metadata now db =
    set_circuits (acquire_expired_probes now (some (configured_vendors metadata)) db.circuits) db

module _ (services : Services) (policy : AdmissionPolicy) (gateway : GatewaySnapshot)
    (system : SystemSnapshot) (metadata : ExecutionMetadata) (routing : Option ModelRoutingPolicy)
    (external : List Text) (is_held : LockKey → Bool) (is_locked : ℕ → Bool) (now new_id : ℕ) where
  abbrev pub proceed : Candidate → AdmissionDecision → Tx AdmissionDecision
  proceed c decision = do
    take_probes metadata now
    admit_candidate services c gateway metadata routing new_id now
    pure decision

  abbrev pub apply_decision : Candidate → AdmissionDecision → Tx AdmissionDecision
  apply_decision c decision = if decision.allowed then proceed c decision else pure decision

  -- What `admit_one` does once it has a candidate.
  unfoldable pub admit_selected : Candidate → Tx AdmissionDecision
  unfolding capacity evaluate take_probes admit_candidate
  admit_selected c = do
    readings ←
        or_raise (← gets (capacity metadata gateway system external now))
          (value_error "vendor name")
    apply_decision c (evaluate policy readings)

  abbrev pub decide : Option Candidate × Bool → Tx AdmissionDecision
  decide (none, true) = pure (refuse data_manifest_missing)
  decide (none, false) = pure (refuse ticker_active)
  decide (some c, _) = admit_selected c

  abbrev pub decide_queue : List Candidate → Tx AdmissionDecision
  decide_queue [] db = pure (refuse queue_empty) db
  decide_queue (c ∷ cs) db =
      decide (select_candidate is_held (manifest_required metadata) db (c ∷ cs) false) db

  unfoldable pub admit_one : Tx AdmissionDecision
  unfolding record_sample queued_candidates select_candidate manifest_required admit_selected
  admit_one = if is_held global_admission then pure (refuse admission_lock) else (do
    modify (record_sample gateway system now)
    decide_queue (← gets (queued_candidates is_locked)))
