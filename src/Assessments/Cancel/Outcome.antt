-- ===== src/Assessments/Cancel/Outcome.antt =====
-- What a call of `AssessmentService.cancel` comes to, for each status of the run.
use market_quorum.Prelude.{ℕ, ◌≡◌, refl, ap, ◌∙◌, true, ◌||◌, some, String, arith, if◌then◌else◌}
use market_quorum.Prelude.Table.{lookup, insert}
use market_quorum.Domain.Runs.{
  RunStatus, waiting_for_data, queued, succeeded, failed, cancel_requested, cancelling, cancelled,
  needs_attention, same_status, is_allowed, is_terminal,
}
use market_quorum.Store.{Database, AssessmentRun, Principal}
use market_quorum.Store.Tx.{
  ok, ◌>>=◌, >>=-ok, or_raise-eq-ok, raise_unless-eq-ok, permission_error, assessment_not_found,
  assessment_access_denied,
}
use market_quorum.Assessments.{RunContext, run_context}
use market_quorum.Assessments.Cancel.{
  has_scope, is_owner_or_admin, cancel_data_requirement, cancel_run, audit_cancel, cancel_context,
  cancel,
}

-- The status that a cancellation leaves.
abbrev pub cancel_target : RunStatus → RunStatus
cancel_target waiting_for_data = cancelled
cancel_target queued = cancelled
cancel_target succeeded = succeeded
cancel_target failed = failed
cancel_target cancelled = cancelled
cancel_target needs_attention = needs_attention
cancel_target cancelling = cancelling
cancel_target _ = cancel_requested

-- The run has the status, if need be by a legal transition, and no other run has changed, nor a
-- lease, a worker or a step.
pub record IsCancelled (run_id : ℕ) (run run' : AssessmentRun) (db db' : Database) : Type 0 where
  pub status : run'.status ≡ cancel_target run.status
  pub legal : (same_status run'.status run.status || is_allowed run.status run'.status) ≡ true
  pub runs :
      db'.runs
      ≡ (if same_status run'.status run.status then db.runs else insert run_id run' db.runs)
  pub requests : db'.requests ≡ db.requests
  pub instruments : db'.instruments ≡ db.instruments
  pub leases : db'.leases ≡ db.leases
  pub workers : db'.workers ≡ db.workers
  pub steps : db'.steps ≡ db.steps

cancel_from :
    (run_id : ℕ) (run : AssessmentRun) (s : RunStatus) (now : ℕ) (db : Database)
    → (run' : AssessmentRun) × (db' : Database) × (cancel_run run_id
          (record run { status = s })
          now
          db
        ≡ ok (run', db'))
      × IsCancelled run_id (record run { status = s }) run' db db'
unfolding cancel_run cancel_data_requirement is_terminal is_allowed same_status
cancel_from run_id run waiting_for_data now db = (
  _,
  _,
  refl,
  record {
    status = refl;
    legal = refl;
    runs = refl;
    requests = refl;
    instruments = refl;
    leases = refl;
    workers = refl;
    steps = refl;
  },
)
cancel_from run_id run _ now db = (
  _,
  _,
  refl,
  record {
    status = refl;
    legal = refl;
    runs = refl;
    requests = refl;
    instruments = refl;
    leases = refl;
    workers = refl;
    steps = refl;
  },
)

-- `cancel_run` never raises.
cancel_run-total :
    (run_id : ℕ) (run : AssessmentRun) (now : ℕ) (db : Database)
    → (run' : AssessmentRun) × (db' : Database) × (cancel_run run_id run now db ≡ ok (run', db'))
      × IsCancelled run_id run run' db db'
cancel_run-total run_id run now db = cancel_from run_id run run.status now db

-- A record of the audit leaves all else as it is.
audited :
    {run_id : ℕ} {run run' : AssessmentRun} {db db1 db' : Database}
    → IsCancelled run_id run run' db db1
    → db' ≡ record db1 { audits = db'.audits }
    → IsCancelled run_id run run' db db'
audited c e = record {
  status = c.status;
  legal = c.legal;
  runs = ap (λ d. d.runs) e ∙ c.runs;
  requests = ap (λ d. d.requests) e ∙ c.requests;
  instruments = ap (λ d. d.instruments) e ∙ c.instruments;
  leases = ap (λ d. d.leases) e ∙ c.leases;
  workers = ap (λ d. d.workers) e ∙ c.workers;
  steps = ap (λ d. d.steps) e ∙ c.steps;
}

pub run_context-found :
    (run_id : ℕ) (db : Database) {context : RunContext}
    → run_context run_id db ≡ some context
    → (lookup run_id db.runs ≡ some context.run) × (context.run_id ≡ run_id)
unfolding run_context
run_context-found run_id db h = (ground arith, ground arith)

-- The principal may cancel the run.
pub record IsAuthorized (principal : Principal) (run_id : ℕ) (db : Database) (context : RunContext)
    : Type 0 where
  pub scope : has_scope "assessments:cancel" principal ≡ true
  pub found : run_context run_id db ≡ some context
  pub owns : is_owner_or_admin principal context ≡ true

module _ (principal : Principal) (run_id : ℕ) (request_id : String) (now : ℕ) (db : Database) where
  audited_cancel :
      (context : RunContext) {run' : AssessmentRun} {db1 : Database}
      → IsCancelled run_id context.run run' db db1
      → cancel_run run_id context.run now db ≡ ok (run', db1)
      → (db' : Database) × ((cancel_run run_id context.run now
              >>= audit_cancel principal run_id request_id)
            db
          ≡ ok (run', db'))
        × IsCancelled run_id context.run run' db db'
  audited_cancel context c e = (
    _,
    >>=-ok (cancel_run run_id context.run now) (audit_cancel principal run_id request_id) db e,
    audited c refl,
  )

  cancel-unfolds :
      (context : RunContext)
      → IsAuthorized principal run_id db context
      → cancel principal run_id request_id now db
        ≡ (cancel_run run_id context.run now >>= audit_cancel principal run_id request_id) db
  unfolding cancel
  cancel-unfolds context a = rw (a.scope, a.found, a.owns) refl

  -- A principal who has the scope and owns the run, or is an administrator, may call `cancel` in
  -- every status of the run, and it does not raise: a run that was not admitted is cancelled, a
  -- run that has ended or is being cancelled stays as it is, and of any other the cancellation is
  -- requested, by a legal transition; no other run, no lease, worker or step changes.
  pub cancel-IsCancelled :
      (context : RunContext)
      → IsAuthorized principal run_id db context
      → (run' : AssessmentRun) × (db' : Database) × (cancel principal run_id request_id now db
          ≡ ok (run', db'))
        × IsCancelled run_id context.run run' db db'
  cancel-IsCancelled context a =
      let (run', db1, e, c) = cancel_run-total run_id context.run now db in
      let (db', e', c') = audited_cancel context c e in
      (run', db', cancel-unfolds context a ∙ e', c')

  -- A call of `cancel` that does not raise was made by a principal who has the scope, for a run
  -- that is found with its context and that the principal owns or administers.
  pub cancel-IsAuthorized :
      {run' : AssessmentRun} {db' : Database}
      → cancel principal run_id request_id now db ≡ ok (run', db')
      → (context : RunContext) × IsAuthorized principal run_id db context
  unfolding cancel
  cancel-IsAuthorized h =
      let (scope, k) =
        raise_unless-eq-ok (has_scope "assessments:cancel" principal)
          (permission_error "missing scopes") _ db h in
      let (context, found, k) =
        or_raise-eq-ok (run_context run_id db) (assessment_not_found run_id)
          (cancel_context principal run_id request_id now) db k in
      let (owns, k) =
        raise_unless-eq-ok (is_owner_or_admin principal context) assessment_access_denied
          (cancel_run run_id context.run now >>= audit_cancel principal run_id request_id) db k in
      (context, record { scope = scope; found = found; owns = owns })
