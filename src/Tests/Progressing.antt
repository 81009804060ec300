-- ===== src/Tests/Progressing.antt =====
-- The life cycle of one run, and the events of two runs that take turns.
use market_quorum.Prelude.{ℕ, ◌≤◌, ◌+◌, ◌*◌, ◌≡◌, List, [], ◌∷◌, arith, length}
use market_quorum.Prelude.Json.{end}
use market_quorum.Domain.Runs.{
  RunStatus, queued, admitted, starting, running_analysts, research_debate, trader_plan,
  risk_debate, portfolio_decision, finalizing, succeeded, is_allowed,
}
use market_quorum.Domain.Runs.Progress.{IsTrace, requeues, trace_bounded}
use market_quorum.Store.{Database, RunEvent}
use market_quorum.Store.Tx.{ok}
use market_quorum.Tests.Sample.{tables}
use market_quorum.Store.Events.{last_sequence, append_event}
use market_quorum.Store.Numbering.{IsNumbered, IsAppended, append_event-IsAppended}

-- Once back to the queue, and then all the way.
abbrev course : List RunStatus
course =
    admitted ∷ queued ∷ admitted ∷ starting ∷ running_analysts ∷ research_debate ∷ trader_plan
    ∷ risk_debate ∷ portfolio_decision ∷ finalizing ∷ succeeded ∷ []

course-IsTrace : IsTrace queued course
unfolding is_allowed
course-IsTrace = ground arith

trace_bounded_example : length course ≤ 12 + 2 * requeues queued course
trace_bounded_example = trace_bounded queued course course-IsTrace

abbrev event_of : ℕ → ℕ → RunEvent
event_of run_id sequence = record {
  run_id = run_id;
  sequence = sequence;
  event_type = [];
  payload_json = end;
}

abbrev log : List RunEvent
log = event_of 1 1 ∷ event_of 2 1 ∷ event_of 1 2 ∷ []

log-IsNumbered : IsNumbered log
unfolding last_sequence
log-IsNumbered run_id = ground arith

abbrev logged : Database
logged = record (tables queued queued queued) { events = log }

append_event-IsAppended_example :
    (db' : Database) × (append_event 2 ("x" ∷ []) end logged ≡ ok (tt, db'))
    × IsAppended 2 ("x" ∷ []) end logged db'
append_event-IsAppended_example = append_event-IsAppended 2 ("x" ∷ []) end logged log-IsNumbered
