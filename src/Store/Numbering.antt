-- ===== src/Store/Numbering.antt =====
-- The numbers of a run's events, where the events of several runs take turns.
use market_quorum.Prelude.{
  ℕ, ◌+◌, max, ◌==◌, ◌≡◌, suc, refl, ap, List, [], ◌∷◌, ◌++◌, String, arith, count, bit,
  if◌then◌else◌,
}
use market_quorum.Prelude.Json.{Fields}
use market_quorum.Store.{Database, RunEvent}
use market_quorum.Store.Tx.{ok}
use market_quorum.Store.Events.{last_sequence, numbered_event, append_event}

abbrev pub events_of : ℕ → List RunEvent → ℕ
events_of run_id = count (λ e. e.run_id == run_id)

-- A run's last number is how many events it has.
abbrev pub IsNumbered : List RunEvent → Type 0
IsNumbered es = (run_id : ℕ) → last_sequence run_id es ≡ events_of run_id es

last_sequence-append :
    (run_id : ℕ) (es : List RunEvent) (e : RunEvent)
    → last_sequence run_id (es ++ e ∷ [])
      ≡ max (last_sequence run_id es) (if e.run_id == run_id then e.sequence else 0)
unfolding last_sequence
last_sequence-append run_id [] e = omega arith
last_sequence-append run_id (x ∷ es) e = ground (arith, last_sequence-append run_id es e)

events_of-append :
    (run_id : ℕ) (es : List RunEvent) (e : RunEvent)
    → events_of run_id (es ++ e ∷ []) ≡ events_of run_id es + bit (e.run_id == run_id)
events_of-append run_id [] e = omega arith
events_of-append run_id (x ∷ es) e = omega (arith, events_of-append run_id es e)

numbered_event-IsNumbered :
    (run_id : ℕ) (event_type : List String) (payload : Fields) (es : List RunEvent)
    → IsNumbered es
    → IsNumbered (es ++ numbered_event run_id event_type payload es ∷ [])
numbered_event-IsNumbered run_id event_type payload es h r = ground (
  arith,
  h r,
  last_sequence-append r es (numbered_event run_id event_type payload es),
  events_of-append r es (numbered_event run_id event_type payload es),
)

-- The tables differ by one event at the end, of the run, whose number is one more than how many
-- events the run had.
pub record IsAppended (run_id : ℕ) (event_type : List String) (payload : Fields) (db db' : Database)
    : Type 0 where
  pub rest : record db' { events = db.events } ≡ db
  pub events :
      db'.events
      ≡ db.events
        ++ record {
          run_id = run_id;
          sequence = events_of run_id db.events + 1;
          event_type = event_type;
          payload_json = payload;
        }
          ∷ []
  pub numbered : IsNumbered db'.events

-- Where each run's last number is how many events it has, `append_event` does not raise: it adds
-- one event at the end, of the run, type and payload given, with the number that is one more than
-- how many events the run had, changes nothing else, and each run's last number is still how many
-- events it has.
pub append_event-IsAppended :
    (run_id : ℕ) (event_type : List String) (payload : Fields) (db : Database)
    → IsNumbered db.events
    → (db' : Database) × (append_event run_id event_type payload db ≡ ok (tt, db'))
      × IsAppended run_id event_type payload db db'
append_event-IsAppended run_id event_type payload db h =
    let next : suc (last_sequence run_id db.events) ≡ events_of run_id db.events + 1 =
      omega (arith, h run_id) in
    (
      _,
      refl,
      record {
        rest = refl;
        events =
            ap
              (λ n.
                db.events
                ++ record {
                  run_id = run_id;
                  sequence = n;
                  event_type = event_type;
                  payload_json = payload;
                }
                  ∷ [])
              next;
        numbered = numbered_event-IsNumbered run_id event_type payload db.events h;
      },
    )
