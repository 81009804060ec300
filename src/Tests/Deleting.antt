-- ===== src/Tests/Deleting.antt =====
-- Deletions of a run of the sample tables.
use market_quorum.Prelude.{◌≡◌, refl, false, [], ◌∷◌, none, some, arith}
use market_quorum.Prelude.Table.{lookup}
use market_quorum.Prelude.Json.{end}
use market_quorum.Prelude.Sorted.{order_by}
use market_quorum.Domain.Runs.{queued, succeeded, is_terminal}
use market_quorum.Store.{Database, Principal}
use market_quorum.Store.Tx.{Result, ok}
use market_quorum.Assessments.{RunContext, run_context}
use market_quorum.Assessments.Delete.{DeletedAssessment, Elsewhere, delete, find_dependent_run_ids}
use market_quorum.Assessments.Delete.Outcome.{
  IsDeletable, IsGone, delete-IsDeletable, delete-IsGone,
}
use market_quorum.Tests.Sample.{
  tables, after, sample_user, sample_batch, sample_request, sample_run,
}

abbrev root : Principal
root = record {
  issuer = "idp";
  subject = "root";
  actor_type = "user";
  scopes = "assessments:admin" ∷ [];
  roles = "Admin" ∷ [];
}

abbrev nothing_else : Elsewhere
nothing_else = record {
  is_validating = false;
  counts = end;
  artifacts = 0;
  isoformat = λ t. "2024-10-04";
}

-- Run 13 has ended.
abbrev ended_tables : Database
ended_tables = tables queued queued succeeded

abbrev ended_context : RunContext
ended_context = record {
  run_id = 13;
  run = sample_run 3 succeeded 4;
  request = sample_request 2;
  instrument = record { canonical_ticker = "MSFT"; asset_type = "stock" };
  batch = sample_batch;
  owner = sample_user;
}

abbrev deleted_run : DeletedAssessment
deleted_run = record { run_id = 13; ticker = "MSFT"; analysis_date = 20000; status = succeeded }

ended-IsDeletable : IsDeletable nothing_else root 13 ended_tables ended_context
unfolding run_context is_terminal find_dependent_run_ids order_by
ended-IsDeletable = record {
  scope = refl;
  role = refl;
  found = refl;
  ended = refl;
  idle = refl;
  alone = refl;
}

delete-IsGone_example :
    (db' : Database) × (delete nothing_else root 13 "r" ended_tables ≡ ok (deleted_run, db'))
    × IsGone 13 db'
delete-IsGone_example =
    delete-IsGone nothing_else root 13 "r" ended_tables ended_context ended-IsDeletable

abbrev deleting : Result (DeletedAssessment × Database)
deleting = delete nothing_else root 13 "r" ended_tables

deleting-eq : deleting ≡ ok (deleted_run, after deleting)
unfolding delete
deleting-eq = refl

delete-IsDeletable_example :
    (context : RunContext) × IsDeletable nothing_else root 13 ended_tables context
    × (deleted_run ≡ record {
      run_id = context.run_id;
      ticker = context.instrument.canonical_ticker;
      analysis_date = context.request.analysis_date;
      status = context.run.status;
    })
    × (run_context 11 (after deleting) ≡ run_context 11 ended_tables)
delete-IsDeletable_example =
    delete-IsDeletable nothing_else root 13 "r" ended_tables 11 (λ h. omega arith) deleting-eq

-- The request of the run goes with it, its batch has other requests and stays.
request_gone : lookup 3 (after deleting).requests ≡ none
unfolding delete
request_gone = refl

batch_stays : lookup 1 (after deleting).batches ≡ some sample_batch
unfolding delete
batch_stays = refl
