-- ===== src/Store/Events.antt =====
-- The rows that the repositories of assessments/repository.py append: events and audit records.
use market_quorum.Prelude.{ℕ, suc, max, ◌==◌, List, [], ◌∷◌, ◌++◌, String, if◌then◌else◌}
use market_quorum.Prelude.Json.{Fields}
use market_quorum.Store.{RunEvent, Principal}
use market_quorum.Store.Tx.{Tx, modify}

-- `coalesce(max(RunEvent.sequence), 0)` over the events of a run.
unfoldable pub last_sequence : ℕ → List RunEvent → ℕ
last_sequence run_id [] = 0
last_sequence run_id (e ∷ es) =
    max (if e.run_id == run_id then e.sequence else 0) (last_sequence run_id es)

abbrev pub numbered_event : ℕ → List String → Fields → List RunEvent → RunEvent
numbered_event run_id event_type payload es = record {
  run_id = run_id;
  sequence = suc (last_sequence run_id es);
  event_type = event_type;
  payload_json = payload;
}

-- `AssessmentRepository.append_event`
abbrev pub append_event : ℕ → List String → Fields → Tx (Unit {0})
append_event run_id event_type payload = modify (λ db. record db {
  events = db.events ++ numbered_event run_id event_type payload db.events ∷ [];
})

-- `AssessmentRepository.append_audit`
abbrev pub append_audit : Principal → String → String → ℕ → String → Fields → Tx (Unit {0})
append_audit principal action object_type object_id request_id metadata = modify (λ db. record db {
  audits =
      db.audits
      ++ record {
        actor_type = principal.actor_type;
        actor_id = principal.subject;
        action = action;
        object_type = object_type;
        object_id = object_id;
        request_id = request_id;
        metadata_json = metadata;
      }
        ∷ [];
})
