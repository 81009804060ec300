-- ===== src/Assessments/Delete/Outcome.antt =====
-- What a call of `AssessmentService.delete` of assessments/service.py comes to.
use mathlib.Core.Path.{subst}
use market_quorum.Prelude.{
  ℕ, ◌==◌, ◌≡◌, ◌≢◌, refl, sym, ap, ◌∙◌, Bool, true, false, not, List, [], ◌∷◌, none, some, String,
  any, keep, is_empty, arith, not-eq-true,
}
use market_quorum.Prelude.Table.{lookup, lookup-erase, any-erase}
use market_quorum.Domain.Runs.{is_terminal}
use market_quorum.Store.{Database, RunEvent, AuditEvent, Principal}
use market_quorum.Store.Tx.{
  ok, ok-cancel, raise_unless-true, or_raise-eq-ok, raise_unless-eq-ok, permission_error,
  assessment_not_found, assessment_access_denied, delete_not_allowed,
}
use market_quorum.Assessments.{RunContext, run_context}
use market_quorum.Assessments.Cancel.{has_scope, has_role}
use market_quorum.Assessments.Cancel.Outcome.{run_context-found}
use market_quorum.Assessments.Delete.{
  DeletedAssessment, Elsewhere, depends_on, find_dependent_run_ids, has_active_work, deleted_of,
  delete_context, delete,
}
use market_quorum.Assessments.Delete.Spared.{
  IsPruned, graph-IsPruned, dependents-none, run_context-pruned,
}

-- The principal may delete the run.
pub record IsDeletable (elsewhere : Elsewhere) (principal : Principal) (run_id : ℕ) (db : Database)
    (context : RunContext) : Type 0 where
  pub scope : has_scope "assessments:admin" principal ≡ true
  pub role : has_role "Admin" principal ≡ true
  pub found : run_context run_id db ≡ some context
  pub ended : is_terminal context.run.status ≡ true
  pub idle : has_active_work elsewhere run_id db ≡ false
  pub alone : is_empty (find_dependent_run_ids run_id db) ≡ true

-- Nothing of the run is left, and nothing refers to it.
pub record IsGone (run_id : ℕ) (db' : Database) : Type 0 where
  pub run : lookup run_id db'.runs ≡ none
  pub lease : lookup run_id db'.leases ≡ none
  pub events : any (λ (e : RunEvent). e.run_id == run_id) db'.events ≡ false
  pub dependents : any (depends_on run_id) db'.runs ≡ false

any-keep-not : {A : Type 0} (p : A → Bool) (xs : List A) → any p (keep (λ x. not (p x)) xs) ≡ false
any-keep-not p [] = refl
any-keep-not p (x ∷ xs) = ground (arith, any-keep-not p xs)

-- A record of the audit leaves all else as it is.
audited :
    {context : RunContext} {db db1 : Database} (audits : List AuditEvent)
    → IsPruned context db db1
    → IsPruned context db (record db1 { audits = audits })
audited audits p = record {
  users = p.users;
  instruments = p.instruments;
  runs = p.runs;
  requests = p.requests;
  batches = p.batches;
  events = p.events;
  leases = p.leases;
}

IsPruned-IsGone :
    (context : RunContext) (db db' : Database)
    → IsPruned context db db'
    → is_empty (find_dependent_run_ids context.run_id db) ≡ true
    → IsGone context.run_id db'
IsPruned-IsGone context db db' p alone =
    let id = context.run_id in
    record {
      run = ap (lookup id) p.runs ∙ ground (arith, lookup-erase id id db.runs);
      lease = ap (lookup id) p.leases ∙ ground (arith, lookup-erase id id db.leases);
      events =
          ap (any (λ (e : RunEvent). e.run_id == id)) p.events
          ∙ any-keep-not (λ (e : RunEvent). e.run_id == id) db.events;
      dependents =
          ap (any (depends_on id)) p.runs
          ∙ any-erase (depends_on id) id db.runs (dependents-none id db alone);
    }

module _ (elsewhere : Elsewhere) (principal : Principal) (request_id : String)
    (context : RunContext) (db : Database) where
  context_inverted :
      {d : DeletedAssessment} {db' : Database}
      → delete_context elsewhere principal request_id context db ≡ ok (d, db')
      → (is_terminal context.run.status ≡ true)
        × (has_active_work elsewhere context.run_id db ≡ false)
        × (is_empty (find_dependent_run_ids context.run_id db) ≡ true)
        × (d ≡ deleted_of context)
        × IsPruned context db db'
  context_inverted {d} {db'} h =
      let (ended, k) =
        raise_unless-eq-ok (is_terminal context.run.status) (delete_not_allowed "run_not_terminal")
          _ db h in
      let (idle, k) =
        raise_unless-eq-ok (not (has_active_work elsewhere context.run_id db))
          (delete_not_allowed "active_work") _ db k in
      let (alone, k) =
        raise_unless-eq-ok (is_empty (find_dependent_run_ids context.run_id db))
          (delete_not_allowed "dependent_runs_exist") _ db k in
      let r = ok-cancel k in
      (
        ended,
        not-eq-true _ idle,
        alone,
        sym (ap (λ x. x.0) r),
        subst (λ (x : DeletedAssessment × Database). IsPruned context db x.1) r
            (audited _ (graph-IsPruned context db)),
      )

  context_deleted :
      is_terminal context.run.status ≡ true
      → has_active_work elsewhere context.run_id db ≡ false
      → is_empty (find_dependent_run_ids context.run_id db) ≡ true
      → (db' : Database) × (delete_context elsewhere principal request_id context db
          ≡ ok (deleted_of context, db'))
        × IsGone context.run_id db'
  context_deleted ended idle alone = (
    _,
    raise_unless-true _ (delete_not_allowed "run_not_terminal") _ db ended
        ∙ raise_unless-true (not (has_active_work elsewhere context.run_id db))
            (delete_not_allowed "active_work") _ db (ap not idle)
        ∙ raise_unless-true _ (delete_not_allowed "dependent_runs_exist") _ db alone,
    IsPruned-IsGone context db _ (audited _ (graph-IsPruned context db)) alone,
  )

module _ (elsewhere : Elsewhere) (principal : Principal) (run_id : ℕ) (request_id : String)
    (db : Database) where
  delete-inverted :
      {d : DeletedAssessment} {db' : Database}
      → delete elsewhere principal run_id request_id db ≡ ok (d, db')
      → (context : RunContext) × IsDeletable elsewhere principal run_id db context
        × (d ≡ deleted_of context)
        × (context.run_id ≡ run_id)
        × IsPruned context db db'
  unfolding delete
  delete-inverted {d} {db'} h =
      let (scope, k) =
        raise_unless-eq-ok (has_scope "assessments:admin" principal)
          (permission_error "missing scopes") _ db h in
      let (role, k) =
        raise_unless-eq-ok (has_role "Admin" principal) assessment_access_denied _ db k in
      let (context, found, k) =
        or_raise-eq-ok (run_context run_id db) (assessment_not_found run_id)
          (delete_context elsewhere principal request_id) db k in
      let (_, same) = run_context-found run_id db found in
      let (ended, idle, alone, e, p) =
        context_inverted elsewhere principal request_id context db k in
      (
        context,
        record {
          scope = scope;
          role = role;
          found = found;
          ended = ended;
          idle = subst (λ id. has_active_work elsewhere id db ≡ false) same idle;
          alone = subst (λ id. is_empty (find_dependent_run_ids id db) ≡ true) same alone;
        },
        e,
        same,
        p,
      )

  -- A call of `delete` that does not raise was made by an administrator who has the scope, for a
  -- run that is found with its context, that has ended, that has no lease, validation or price
  -- basis at work and that no other run names as the one it repeats; it returns the run's
  -- identifier, ticker, date and status; and every other run is found as before, with its
  -- request, instrument, batch and owner.
  pub delete-IsDeletable :
      (j : ℕ) {d : DeletedAssessment} {db' : Database}
      → j ≢ run_id
      → delete elsewhere principal run_id request_id db ≡ ok (d, db')
      → (context : RunContext) × IsDeletable elsewhere principal run_id db context
        × (d ≡ record {
          run_id = context.run_id;
          ticker = context.instrument.canonical_ticker;
          analysis_date = context.request.analysis_date;
          status = context.run.status;
        })
        × (run_context j db' ≡ run_context j db)
  delete-IsDeletable j {d} {db'} other h =
      let (context, deletable, e, same, p) = delete-inverted h in
      (context, deletable, e, run_context-pruned context db db' p j (λ k. other (k ∙ same)))

  delete-unfolds :
      (context : RunContext)
      → IsDeletable elsewhere principal run_id db context
      → delete elsewhere principal run_id request_id db
        ≡ delete_context elsewhere principal request_id context db
  unfolding delete
  delete-unfolds context a = rw (a.scope, a.role, a.found) refl

  -- A call of `delete` by an administrator who has the scope, for a run that is found with its
  -- context, that has ended, that has no lease, validation or price basis at work and that no
  -- other run names as the one it repeats, does not raise: it returns the run's identifier,
  -- ticker, date and status, the run, its lease and its events are gone, and no run that is left
  -- names it.
  pub delete-IsGone :
      (context : RunContext)
      → IsDeletable elsewhere principal run_id db context
      → (db' : Database) × (delete elsewhere principal run_id request_id db
          ≡ ok (
            record {
              run_id = context.run_id;
              ticker = context.instrument.canonical_ticker;
              analysis_date = context.request.analysis_date;
              status = context.run.status;
            },
            db',
          ))
        × IsGone run_id db'
  delete-IsGone context a =
      let same = sym (run_context-found run_id db a.found).1 in
      let (db', e, gone) =
        context_deleted elsewhere principal request_id context db a.ended
          (subst (λ id. has_active_work elsewhere id db ≡ false) same a.idle)
          (subst (λ id. is_empty (find_dependent_run_ids id db) ≡ true) same a.alone) in
      (db', delete-unfolds context a ∙ e, subst (λ id. IsGone id db') (sym same) gone)
