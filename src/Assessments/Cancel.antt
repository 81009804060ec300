-- ===== src/Assessments/Cancel.antt =====
-- `AssessmentService.cancel` of platform/src/tradingng_platform/assessments/service.py.
pub mod Outcome
use market_quorum.Prelude.{
  ℕ, ◌+◌, ◌==◌, Bool, true, false, not, ◌&&◌, ◌||◌, List, [], ◌∷◌, Option, none, some, String,
  str_eq, if◌then◌else◌, any,
}
use market_quorum.Prelude.Table.{Table, lookup, insert}
use market_quorum.Prelude.Json.{Json, str, Fields, end, field}
use market_quorum.Domain.Runs.{
  RunStatus, queued, waiting_for_data, cancelled, cancel_requested, cancelling, is_terminal,
  same_status,
}
use market_quorum.Domain.Runs.Values.{value}
use market_quorum.Store.{
  Database, AssessmentRun, AssessmentDataRequirement, RequirementStatus, waiting, retry_wait,
  Principal, User,
}
use market_quorum.Store.Tx.{
  Tx, pure, gets, modify, or_raise, raise_unless, assert_transition, ◌>>=◌, ◌>>◌, permission_error,
  assessment_not_found, assessment_access_denied,
}
use market_quorum.Store.Events.{append_event, append_audit}
use market_quorum.Assessments.{RunContext, run_context}

-- `Principal.require` of one scope.
abbrev pub has_scope : String → Principal → Bool
has_scope scope p = any (str_eq scope) p.scopes

abbrev pub has_role : String → Principal → Bool
has_role role p = any (str_eq role) p.roles

-- `_require_owner_or_admin`: the test under which it does not raise.
unfoldable pub is_owner_or_admin : Principal → RunContext → Bool
is_owner_or_admin p context =
    has_role "Admin" p && has_scope "assessments:admin" p
    || str_eq context.owner.issuer p.issuer && str_eq context.owner.subject p.subject

abbrev is_pending_requirement : RequirementStatus → Bool
is_pending_requirement waiting = true
is_pending_requirement retry_wait = true
is_pending_requirement _ = false

abbrev cancelled_requirement : AssessmentDataRequirement → AssessmentDataRequirement
cancelled_requirement r =
    if is_pending_requirement r.status
    then record r {
      status = RequirementStatus.cancelled;
      next_poll_at = none;
      lease_owner = none;
      lease_expires_at = none;
      version = r.version + 1;
    }
    else r

-- The requirement of a run, which is unique.
abbrev pub requirement_of :
    ℕ → Table AssessmentDataRequirement → Option (ℕ × AssessmentDataRequirement)
requirement_of run_id [] = none
requirement_of run_id ((id, r) ∷ t) =
    if r.run_id == run_id then some (id, r) else requirement_of run_id t

-- `cancel_data_requirement`
unfoldable pub cancel_data_requirement : ℕ → Tx (Unit {0})
cancel_data_requirement run_id = modify (λ db. record db {
  requirements = elim (requirement_of run_id db.requirements) [
    | none ↦ db.requirements
    | some (id, r) ↦ insert id (cancelled_requirement r) db.requirements
  ];
})

abbrev pub save_run : ℕ → AssessmentRun → Tx (Unit {0})
save_run run_id run = modify (λ db. record db { runs = insert run_id run db.runs })

abbrev is_waiting : RunStatus → Bool
is_waiting waiting_for_data = true
is_waiting _ = false

abbrev is_unadmitted : RunStatus → Bool
is_unadmitted queued = true
is_unadmitted waiting_for_data = true
is_unadmitted _ = false

abbrev pub is_cancel_status : RunStatus → Bool
is_cancel_status cancel_requested = true
is_cancel_status cancelling = true
is_cancel_status _ = false

-- The branches of `cancel` on the run's status.
unfoldable pub cancel_run : ℕ → AssessmentRun → ℕ → Tx AssessmentRun
unfolding cancel_data_requirement is_terminal
cancel_run run_id run now =
    if is_unadmitted run.status
    then (do
      assert_transition run.status cancelled
      let run' = record run {
        status = cancelled;
        finished_at = some now;
        version = run.version + 1;
      }
      save_run run_id run'
      if is_waiting run.status then cancel_data_requirement run_id else pure tt
      append_event run_id ("assessment" ∷ "cancelled" ∷ []) end
      pure run')
    else (if not (is_terminal run.status) && not (is_cancel_status run.status)
        then (do
          assert_transition run.status cancel_requested
          let run' = record run { status = cancel_requested; version = run.version + 1 }
          save_run run_id run'
          append_event run_id ("assessment" ∷ "cancel_requested" ∷ []) end
          pure run')
        else pure run)

abbrev pub audit_cancel : Principal → ℕ → String → AssessmentRun → Tx AssessmentRun
audit_cancel principal run_id request_id run = do
  append_audit principal "assessment.cancel" "assessment_run" run_id request_id
      (field "status" (str (value run.status)) end)
  pure run

abbrev pub cancel_context : Principal → ℕ → String → ℕ → RunContext → Tx AssessmentRun
cancel_context principal run_id request_id now context = do
  raise_unless (is_owner_or_admin principal context) assessment_access_denied
  run ← cancel_run run_id context.run now
  audit_cancel principal run_id request_id run

unfoldable pub cancel : Principal → ℕ → String → ℕ → Tx AssessmentRun
unfolding run_context is_owner_or_admin cancel_run value
cancel principal run_id request_id now = do
  raise_unless (has_scope "assessments:cancel" principal) (permission_error "missing scopes")
  context ← or_raise (← gets (run_context run_id)) (assessment_not_found run_id)
  cancel_context principal run_id request_id now context
