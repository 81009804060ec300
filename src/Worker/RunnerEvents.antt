-- ===== src/Worker/RunnerEvents.antt =====
-- `persist_runner_event` of worker/repository.py: the durable record of what a runner reports, and
-- the stage of the run that follows from it.
pub mod Sequence
pub mod Persisted
use market_quorum.Prelude.{
  ℕ, suc, ◌+◌, ◌==◌, ltb, Bool, true, false, not, ◌&&◌, List, [], ◌∷◌, ◌++◌, map, Option, none,
  some, String, str_eq, if◌then◌else◌, get_or_else,
}
use market_quorum.Prelude.Table.{Table, lookup, insert}
use market_quorum.Prelude.Json.{Json, Fields, num, str, get, update}
use market_quorum.Domain.Runs.{RunStatus, finalizing, same_status}
use market_quorum.Domain.Runs.Values.{value, parse_status}
use market_quorum.Store.{Database, AssessmentRun, RunEvent, RunStep, StepStatus, running, completed}
use market_quorum.Store.Tx.{
  Tx, pure, raise, gets, modify, or_raise, raise_unless, assert_transition, ◌>>=◌, ◌>>◌,
  runtime_error, value_error,
}
use market_quorum.Store.Events.{append_event}
use market_quorum.Assessments.Cancel.{save_run, is_cancel_status}

-- runner/contracts.py
pub data RunnerEventType : Type 0 where
  stage tool artifact result error : RunnerEventType

abbrev pub type_text : RunnerEventType → String
type_text stage = "stage"
type_text tool = "tool"
type_text artifact = "artifact"
type_text result = "result"
type_text error = "error"

pub record RunnerEvent : Type 0 where
  pub sequence : ℕ
  pub type : RunnerEventType
  pub name : String
  pub payload : Fields

-- `int(payload.get(key, default))`; nothing but numbers is stored under the keys that are read.
abbrev pub int_of : ℕ → Option Json → ℕ
int_of default (some (num n)) = n
int_of default _ = default

abbrev is_runner_type : List String → Bool
is_runner_type [] = false
is_runner_type (scope ∷ []) = false
is_runner_type (scope ∷ segment ∷ rest) = str_eq scope "runner"

unfoldable pub is_runner_event : ℕ → ℕ → RunEvent → Bool
unfolding get
is_runner_event run_id attempt e =
    e.run_id == run_id
    && is_runner_type e.event_type
    && int_of 1 (get "runner_attempt" e.payload_json) == attempt

abbrev pub later_event : RunEvent → Option RunEvent → RunEvent
later_event e none = e
later_event e (some f) = if ltb e.sequence f.sequence then f else e

-- The last event of the run that a runner has reported in this attempt.
unfoldable pub last_runner_event : ℕ → ℕ → List RunEvent → Option RunEvent
unfolding is_runner_event
last_runner_event run_id attempt [] = none
last_runner_event run_id attempt (e ∷ es) =
    let later = last_runner_event run_id attempt es in
    if is_runner_event run_id attempt e then some (later_event e later) else later

abbrev sequence_of : Option RunEvent → ℕ
sequence_of none = 0
sequence_of (some e) = int_of 0 (get "runner_sequence" e.payload_json)

-- The sequence number that the next runner event must have.
unfoldable pub expected_sequence : ℕ → ℕ → List RunEvent → ℕ
unfolding last_runner_event get
expected_sequence run_id attempt es = sequence_of (last_runner_event run_id attempt es) + 1

abbrev is_running : StepStatus → Bool
is_running running = true
is_running _ = false

abbrev pub finish_step : ℕ → ℕ → StepStatus → Option String → ℕ → RunStep → RunStep
finish_step run_id attempt status error_code now s =
    if s.run_id == run_id && s.attempt == attempt && is_running s.status
    then record s { status = status; finished_at = some now; error_code = error_code }
    else s

-- `_finish_running_steps`
abbrev pub finish_running_steps : ℕ → ℕ → StepStatus → Option String → ℕ → Tx (Unit {0})
finish_running_steps run_id attempt status error_code now =
    modify
      (λ db. record db { steps = map (finish_step run_id attempt status error_code now) db.steps })

abbrev is_step : ℕ → String → ℕ → RunStep → Bool
is_step run_id name attempt s = s.run_id == run_id && str_eq s.name name && s.attempt == attempt

-- `INSERT … ON CONFLICT (run_id, name, attempt) DO UPDATE`.
unfoldable pub upsert_row : RunStep → StepStatus → List RunStep → List RunStep
upsert_row new status [] = new ∷ []
upsert_row new status (s ∷ ss) =
    let rest = upsert_row new status ss in
    if is_step new.run_id new.name new.attempt s
    then record s { status = status; summary = new.summary } ∷ ss
    else s ∷ rest

-- `_upsert_step`
unfoldable pub upsert_step : ℕ → ℕ → RunnerEvent → RunStatus → ℕ → Tx (Unit {0})
unfolding upsert_row value get
upsert_step run_id attempt event status now = modify (λ db. record db {
  steps =
      upsert_row
        (record {
          run_id = run_id;
          name = event.name;
          status = running;
          attempt = attempt;
          started_at = some now;
          finished_at = none;
          error_code = none;
          summary = get "progress_key" event.payload;
        })
        (if str_eq (value status) event.name then running else completed) db.steps;
})

-- The text that a stage event gives as its status; `none` for a value that is no text.
abbrev status_text : Option Json → String → Option String
status_text none name = some name
status_text (some (str text)) name = some text
status_text (some _) name = none

abbrev parse_text : Option String → Option RunStatus
parse_text none = none
parse_text (some text) = parse_status text

-- `RunStatus(event.payload.get("status", event.name))`
unfoldable pub stage_target : RunnerEvent → Option RunStatus
unfolding get parse_status
stage_target event = parse_text (status_text (get "status" event.payload) event.name)

-- Moves the run to the status, after its running steps are completed.
abbrev pub advance : ℕ → AssessmentRun → RunStatus → ℕ → Tx (Unit {0})
advance run_id run target now = do
  assert_transition run.status target
  finish_running_steps run_id run.attempt completed none now
  save_run run_id (record run { status = target; version = run.version + 1 })

-- The branch for a stage event whose run is not being cancelled.
unfoldable pub enter_stage : ℕ → AssessmentRun → RunnerEvent → RunStatus → ℕ → Tx (Unit {0})
unfolding same_status upsert_step
enter_stage run_id run event target now = do
  if same_status target run.status then pure tt else advance run_id run target now
  upsert_step run_id run.attempt event target now

-- The branches on the event's type.
unfoldable pub apply_event : ℕ → AssessmentRun → RunnerEvent → RunnerEventType → ℕ → Tx RunStatus
unfolding stage_target enter_stage
apply_event run_id run event stage now = do
  target ← or_raise (stage_target event) (value_error "RunStatus")
  (if is_cancel_status run.status
      then pure run.status
      else (enter_stage run_id run event target now >> pure target))
apply_event run_id run event result now =
    if is_cancel_status run.status
    then pure run.status
    else (advance run_id run finalizing now >> pure finalizing)
apply_event run_id run event _ now = pure run.status

-- `persist_runner_event` once the run is found.
abbrev pub handle : ℕ → RunnerEvent → ℕ → AssessmentRun → Tx RunStatus
handle run_id event now run = do
  expected ← gets (λ db. expected_sequence run_id run.attempt db.events)
  raise_unless (event.sequence == expected) (value_error "durable runner sequence")
  append_event run_id ("runner" ∷ type_text event.type ∷ event.name ∷ []) (
      update "runner_attempt" (num run.attempt)
        (update "runner_sequence" (num event.sequence) event.payload))
  apply_event run_id run event event.type now

unfoldable pub persist_runner_event : ℕ → RunnerEvent → ℕ → Tx RunStatus
unfolding expected_sequence apply_event update
persist_runner_event run_id event now = do
  run ←
      or_raise (← gets (λ db. lookup run_id db.runs))
        (runtime_error "runner event references an unknown run")
  handle run_id event now run
