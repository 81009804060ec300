-- ===== src/Worker/RunnerEvents/Persisted.antt =====
-- What `persist_runner_event` of worker/repository.py does to the run and to its log.
use mathlib.Core.Path.{subst}
use market_quorum.Prelude.{
  ℕ, ◌+◌, ◌==◌, ==_iff, ◌≡◌, refl, sym, ap, ◌∙◌, true, false, not, ◌&&◌, ◌||◌, [], ◌∷◌, ◌++◌, some,
  arith, if◌then◌else◌, inl, inr,
}
use market_quorum.Prelude.Table.{lookup, insert}
use market_quorum.Prelude.Json.{num, update}
use market_quorum.Domain.Runs.{
  RunStatus, index, waiting_for_data, queued, is_allowed, finalizing, same_status,
}
use market_quorum.Store.{Database, AssessmentRun}
use market_quorum.Store.Tx.{
  Tx, ok, >>-pure-eq-ok, or_raise-eq-ok, raise_unless-eq-ok, branch-eq, ok-eq, value_error,
  runtime_error, ◌>>◌, pure,
}
use market_quorum.Store.Events.{append_event}
use market_quorum.Assessments.Cancel.{is_cancel_status}
use market_quorum.Worker.RunnerEvents.{
  RunnerEvent, RunnerEventType, stage, tool, artifact, result, error, type_text, expected_sequence,
  advance, enter_stage, apply_event, handle, stage_target, upsert_step, persist_runner_event,
}
use market_quorum.Worker.RunnerEvents.Sequence.{persisted, persisted-expected_sequence}

-- The run stays, or moves by one legal transition. Of the other tables only the steps may differ,
-- and a run that is being cancelled stays.
pub record IsMoved (run_id : ℕ) (run : AssessmentRun) (status : RunStatus) (db db' : Database)
    : Type 0 where
  pub legal : (same_status status run.status || is_allowed run.status status) ≡ true
  pub stays : (is_cancel_status run.status && not (same_status status run.status)) ≡ false
  pub runs : db'.runs ≡ (
      if same_status status run.status
      then db.runs
      else insert run_id (record run { status = status; version = run.version + 1 }) db.runs)
  pub events : db'.events ≡ db.events
  pub leases : db'.leases ≡ db.leases
  pub workers : db'.workers ≡ db.workers

same_status_refl : (s : RunStatus) → same_status s s ≡ true
unfolding same_status
same_status_refl s = ground (arith, ==_iff (index s) (index s))

IsMoved-refl :
    (run_id : ℕ) (run : AssessmentRun) (db : Database) → IsMoved run_id run run.status db db
IsMoved-refl run_id run db = record {
  legal = rw (same_status_refl run.status) refl;
  stays = ground (arith, same_status_refl run.status);
  runs = rw (same_status_refl run.status) refl;
  events = refl;
  leases = refl;
  workers = refl;
}

allowed-moves : (s t : RunStatus) → is_allowed s t ≡ true → same_status t s ≡ false
unfolding is_allowed
allowed-moves waiting_for_data t h = ground arith
allowed-moves queued t h = ground arith
allowed-moves _ t h = ground arith

enter_stage-IsMoved :
    (run_id : ℕ) (run : AssessmentRun) (event : RunnerEvent) (target : RunStatus) (now : ℕ)
    (db : Database) {u : Unit {0}} {db' : Database}
    → is_cancel_status run.status ≡ false
    → enter_stage run_id run event target now db ≡ ok (u, db')
    → IsMoved run_id run target db db'
unfolding enter_stage upsert_step
enter_stage-IsMoved run_id run event target now db c h = record {
  legal = ground arith;
  stays = ground arith;
  runs = ground arith;
  events = ground arith;
  leases = ground arith;
  workers = ground arith;
}

advance-IsMoved :
    (run_id : ℕ) (run : AssessmentRun) (target : RunStatus) (now : ℕ) (db : Database) {u : Unit {0}}
    {db' : Database}
    → is_cancel_status run.status ≡ false
    → advance run_id run target now db ≡ ok (u, db')
    → IsMoved run_id run target db db'
advance-IsMoved run_id run target now db c h = record {
  legal = ground arith;
  stays = ground arith;
  runs = ground (arith, allowed-moves run.status target);
  events = ground arith;
  leases = ground arith;
  workers = ground arith;
}

kept-IsMoved :
    (run_id : ℕ) (run : AssessmentRun) (db : Database) {status : RunStatus} {db' : Database}
    → pure run.status db ≡ ok (status, db')
    → IsMoved run_id run status db db'
kept-IsMoved run_id run db {status} {db'} h =
    subst (λ s. IsMoved run_id run s db db') (ok-eq h).0
      (subst (IsMoved run_id run run.status db) (ok-eq h).1 (IsMoved-refl run_id run db))

-- A run that is being cancelled is left alone.
unless_cancelled-IsMoved :
    (run_id : ℕ) (run : AssessmentRun) (m : Tx (Unit {0})) (target : RunStatus) (db : Database)
    {status : RunStatus} {db' : Database}
    → (is_cancel_status run.status ≡ false
        → (u : Unit {0}) → m db ≡ ok (u, db')
        → IsMoved run_id run target db db')
    → (if is_cancel_status run.status then pure run.status else (m >> pure target)) db
      ≡ ok (status, db')
    → IsMoved run_id run status db db'
unless_cancelled-IsMoved run_id run m target db {status} {db'} moves h =
    elim (branch-eq (is_cancel_status run.status) (pure run.status) (m >> pure target) db h) [
      | inl (c, k) ↦ kept-IsMoved run_id run db k
      | inr (c, k) ↦
          let (_, e, same) = >>-pure-eq-ok m target db k in
          subst (λ s. IsMoved run_id run s db db') (sym same) (moves c _ e)
    ]

apply_event-IsMoved :
    (run_id : ℕ) (run : AssessmentRun) (event : RunnerEvent) (type : RunnerEventType) (now : ℕ)
    (db : Database) {status : RunStatus} {db' : Database}
    → apply_event run_id run event type now db ≡ ok (status, db')
    → IsMoved run_id run status db db'
unfolding apply_event
apply_event-IsMoved run_id run event stage now db h =
    let (target, e, k) =
      or_raise-eq-ok (stage_target event) (value_error "RunStatus")
        (λ target.
          if is_cancel_status run.status
          then pure run.status
          else (enter_stage run_id run event target now >> pure target))
        db h in
    unless_cancelled-IsMoved run_id run (enter_stage run_id run event target now) target db
      (λ c u. enter_stage-IsMoved run_id run event target now db c) k
apply_event-IsMoved run_id run event result now db h =
    unless_cancelled-IsMoved run_id run (advance run_id run finalizing now) finalizing db
      (λ c u. advance-IsMoved run_id run finalizing now db c) h
apply_event-IsMoved run_id run event tool now db h = kept-IsMoved run_id run db h
apply_event-IsMoved run_id run event artifact now db h = kept-IsMoved run_id run db h
apply_event-IsMoved run_id run event error now db h = kept-IsMoved run_id run db h

abbrev pub with_event : ℕ → AssessmentRun → RunnerEvent → Database → Database
with_event run_id run event db = record db {
  events = db.events ++ persisted run_id run.attempt event db.events ∷ [];
}

pub record IsPersisted (run_id : ℕ) (event : RunnerEvent) (status : RunStatus) (db db' : Database)
    : Type 0 where
  pub run : AssessmentRun
  pub found : lookup run_id db.runs ≡ some run
  pub in_turn : event.sequence ≡ expected_sequence run_id run.attempt db.events
  pub moved : IsMoved run_id run status (with_event run_id run event db) db'
  pub next : expected_sequence run_id run.attempt db'.events ≡ event.sequence + 1

-- A call of `persist_runner_event` that does not raise has found the run and an event whose
-- number is the one expected next in the run's attempt; it appends that event, after which the
-- number expected is the next one; and the run stays or moves by one legal transition to the
-- status returned, stays where it is being cancelled, and no other run, no lease and no worker
-- changes.
pub persist_runner_event-IsPersisted :
    (run_id : ℕ) (event : RunnerEvent) (now : ℕ) (db : Database) {status : RunStatus}
    {db' : Database}
    → persist_runner_event run_id event now db ≡ ok (status, db')
    → IsPersisted run_id event status db db'
unfolding persist_runner_event
persist_runner_event-IsPersisted run_id event now db {status} {db'} h =
    let (run, found, k) =
      or_raise-eq-ok (lookup run_id db.runs)
        (runtime_error "runner event references an unknown run") (handle run_id event now) db h in
    let (in_turn, k) =
      raise_unless-eq-ok (event.sequence == expected_sequence run_id run.attempt db.events)
        (value_error "durable runner sequence")
        (append_event run_id ("runner" ∷ type_text event.type ∷ event.name ∷ []) (
            update "runner_attempt" (num run.attempt)
              (update "runner_sequence" (num event.sequence) event.payload))
          >> apply_event run_id run event event.type now)
        db k in
    let moved =
      apply_event-IsMoved run_id run event event.type now (with_event run_id run event db) k in
    record {
      run = run;
      found = found;
      in_turn = (==_iff _ _).0 in_turn;
      moved = moved;
      next =
          ap (expected_sequence run_id run.attempt) moved.events
          ∙ persisted-expected_sequence run_id run.attempt event db.events;
    }
