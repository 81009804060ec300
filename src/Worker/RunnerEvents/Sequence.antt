-- ===== src/Worker/RunnerEvents/Sequence.antt =====
-- The sequence numbers that worker/repository.py demands of a runner's events.
use market_quorum.Prelude.{ℕ, suc, ◌+◌, ◌<◌, ◌≡◌, refl, true, List, [], ◌∷◌, ◌++◌, some, ◌∙◌, arith}
use market_quorum.Prelude.Json.{Fields, num, get, get-update, update}
use market_quorum.Store.{RunEvent}
use market_quorum.Store.Events.{last_sequence, numbered_event}
use market_quorum.Worker.RunnerEvents.{
  RunnerEvent, type_text, is_runner_event, last_runner_event, expected_sequence,
}

-- The event that `persist_runner_event` appends.
abbrev pub persisted : ℕ → ℕ → RunnerEvent → List RunEvent → RunEvent
persisted run_id attempt event es =
    numbered_event run_id ("runner" ∷ type_text event.type ∷ event.name ∷ [])
      (update "runner_attempt" (num attempt)
        (update "runner_sequence" (num event.sequence) event.payload))
      es

last_runner_event-append :
    (run_id attempt n : ℕ) (es : List RunEvent) (e : RunEvent)
    → is_runner_event run_id attempt e ≡ true
    → last_sequence run_id es < n
    → e.sequence ≡ n
    → last_runner_event run_id attempt (es ++ e ∷ []) ≡ some e
unfolding last_runner_event is_runner_event last_sequence
last_runner_event-append run_id attempt n [] e h m q = ground arith
last_runner_event-append run_id attempt n (x ∷ es) e h m q =
    ground (arith, last_runner_event-append run_id attempt n es e h)

module _ (run_id attempt : ℕ) (event : RunnerEvent) (es : List RunEvent) where
  abbrev added : RunEvent
  added = persisted run_id attempt event es

  abbrev stamped : Fields
  stamped = update "runner_sequence" (num event.sequence) event.payload

  stamped_attempt : get "runner_attempt" added.payload_json ≡ some (num attempt)
  stamped_attempt = get-update "runner_attempt" "runner_attempt" (num attempt) stamped

  stamped_sequence : get "runner_sequence" added.payload_json ≡ some (num event.sequence)
  stamped_sequence =
      get-update "runner_attempt" "runner_sequence" (num attempt) stamped
      ∙ get-update "runner_sequence" "runner_sequence" (num event.sequence) event.payload

  added-is_runner_event : is_runner_event run_id attempt added ≡ true
  unfolding is_runner_event
  added-is_runner_event = ground (arith, stamped_attempt)

  pub persisted-last_runner_event : last_runner_event run_id attempt (es ++ added ∷ []) ≡ some added
  persisted-last_runner_event =
      last_runner_event-append run_id attempt (suc (last_sequence run_id es)) es added
        added-is_runner_event (omega arith) refl

  pub persisted-expected_sequence :
      expected_sequence run_id attempt (es ++ added ∷ []) ≡ event.sequence + 1
  unfolding expected_sequence
  persisted-expected_sequence = ground (arith, persisted-last_runner_event, stamped_sequence)
