-- ===== src/Tests/Cancelling.antt =====
-- Cancellations on the sample tables.
use market_quorum.Prelude.{ℕ, ◌≤◌, ◌≡◌, refl, [], ◌∷◌, some}
use market_quorum.Prelude.Table.{lookup, IsUnique}
use market_quorum.Domain.Runs.{queued, admitted, cancel_requested, is_allowed, is_terminal}
use market_quorum.Store.{Database, AssessmentRun, Principal}
use market_quorum.Store.Tx.{Result, ok}
use market_quorum.Scheduler.Admission.{active_runs}
use market_quorum.Assessments.{RunContext, run_context}
use market_quorum.Assessments.Cancel.{cancel, is_owner_or_admin}
use market_quorum.Assessments.Cancel.Outcome.{
  IsAuthorized, IsCancelled, cancel-IsCancelled, cancel-IsAuthorized,
}
use market_quorum.Lifecycle.{Steps}
use market_quorum.Lifecycle.Cancellation.{cancel_admitted-never_ends}
use market_quorum.Tests.Sample.{
  tables, after, sample_user, sample_batch, sample_request, sample_run,
}

abbrev alice : Principal
alice = record {
  issuer = "idp";
  subject = "alice";
  actor_type = "user";
  scopes = "assessments:cancel" ∷ [];
  roles = "User" ∷ [];
}

abbrev waiting_tables : Database
waiting_tables = tables admitted queued queued

abbrev context_of : ℕ → ℕ → AssessmentRun → RunContext
context_of run_id request_id run = record {
  run_id = run_id;
  run = run;
  request = sample_request 1;
  instrument = record { canonical_ticker = "AAPL"; asset_type = "stock" };
  batch = sample_batch;
  owner = sample_user;
}

abbrev context : RunContext
context = context_of 11 1 (sample_run 1 admitted 5)

alice-IsAuthorized : IsAuthorized alice 11 waiting_tables context
unfolding run_context is_owner_or_admin
alice-IsAuthorized = record { scope = refl; found = refl; owns = refl }

cancel-IsCancelled_example :
    (run' : AssessmentRun) × (db' : Database) × (cancel alice 11 "r" 50 waiting_tables
      ≡ ok (run', db'))
    × IsCancelled 11 context.run run' waiting_tables db'
cancel-IsCancelled_example =
    cancel-IsCancelled alice 11 "r" 50 waiting_tables context alice-IsAuthorized

abbrev cancelling_one : Result (AssessmentRun × Database)
cancelling_one = cancel alice 11 "r" 50 waiting_tables

cancelling_one-eq :
    cancelling_one
    ≡ ok (
      record (sample_run 1 admitted 5) { status = cancel_requested; version = 2 },
      after cancelling_one,
    )
unfolding cancel is_allowed is_terminal
cancelling_one-eq = refl

cancel-IsAuthorized_example : (c : RunContext) × IsAuthorized alice 11 waiting_tables c
cancel-IsAuthorized_example = cancel-IsAuthorized alice 11 "r" 50 waiting_tables cancelling_one-eq

waiting-IsUnique : IsUnique waiting_tables.runs
waiting-IsUnique = (refl, (refl, (refl, tt)))

cancel_admitted-never_ends_example :
    (run' : AssessmentRun) × (db' : Database) × (cancel alice 11 "r" 50 waiting_tables
      ≡ ok (run', db'))
    × ((db'' : Database)
        → Steps db' db''
        → (run'' : AssessmentRun) × (lookup 11 db''.runs ≡ some run'')
          × (run''.status ≡ cancel_requested)
          × (1 ≤ active_runs db''))
cancel_admitted-never_ends_example =
    cancel_admitted-never_ends alice 11 "r" 50 waiting_tables context alice-IsAuthorized refl refl
      waiting-IsUnique
