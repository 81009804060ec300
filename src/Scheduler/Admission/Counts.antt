-- ===== src/Scheduler/Admission/Counts.antt =====
-- What the query for candidates of scheduler/repository.py selects, and how admitting a run moves
-- the counts of active runs.
use mathlib.Core.Path.{subst}
use market_quorum.Prelude.{
  ℕ, ◌+◌, ◌≡◌, refl, ◌∙◌, ap, Bool, true, false, ◌&&◌, not, List, [], ◌∷◌, ◌++◌, Option, none, some,
  String, str_eq, arith, All, bit, Option-cases, Bool-cases, inl, inr,
}
use market_quorum.Prelude.Table.{
  Table, lookup, insert, count_rows, IsUnique, IsFound, IsUnique-IsFound, count_rows-insert,
}
use market_quorum.Prelude.Sorted.{All-order_by}
use market_quorum.Domain.Runs.{RunStatus, queued, admitted, same_status}
use market_quorum.Store.{Database, AssessmentRun}
use market_quorum.Scheduler.Admission.{
  is_active, Candidate, joined_candidate, onto, queue_rows, queue_lt, queued_candidates, has_ticker,
  active_on, active_runs, LockKey, is_eligible, lacks_manifest, select_candidate,
}

-- The candidate is a queued run of the tables, with its request and its instrument.
pub record IsQueuedRun (db : Database) (c : Candidate) : Type 0 where
  pub stored : lookup c.run_id db.runs ≡ some c.run
  pub is_queued : c.run.status ≡ queued
  pub requested : lookup c.run.request_id db.requests ≡ some c.request
  pub for_instrument : lookup c.request.instrument_id db.instruments ≡ some c.instrument

queued-of_same : (s : RunStatus) → same_status s queued ≡ true → s ≡ queued
unfolding same_status
queued-of_same queued h = refl
queued-of_same _ h = ground arith

joined_candidate-lem :
    (id : ℕ) (run : AssessmentRun) (db : Database) (c : Candidate)
    → joined_candidate id run db ≡ some c
    → (c.run_id ≡ id)
      × (c.run ≡ run)
      × (lookup run.request_id db.requests ≡ some c.request)
      × (lookup c.request.instrument_id db.instruments ≡ some c.instrument)
unfolding joined_candidate
joined_candidate-lem id run db c h = ground arith

joined-IsQueuedRun :
    (is_locked : ℕ → Bool) (id : ℕ) (run : AssessmentRun) (db : Database) (c : Candidate)
    → lookup id db.runs ≡ some run
    → (same_status run.status queued && not (is_locked id)) ≡ true
    → joined_candidate id run db ≡ some c
    → IsQueuedRun db c
joined-IsQueuedRun is_locked id run db c found selected joined =
    ground (arith, joined_candidate-lem id run db c joined, queued-of_same run.status)

queue_rows-All :
    (is_locked : ℕ → Bool) (db : Database) (rows : Table AssessmentRun)
    → IsFound db.runs rows
    → All (IsQueuedRun db) (queue_rows is_locked db rows)
queue_rows-All is_locked db [] h = tt
queue_rows-All is_locked db ((id, run) ∷ rows) h =
    elim (Bool-cases (same_status run.status queued && not (is_locked id))) [
      | inr other ↦ rw (other, queue_rows) (queue_rows-All is_locked db rows h.1)
      | inl selected ↦
          rw (selected, queue_rows)
            (elim (Option-cases (joined_candidate id run db)) [
              | inl missing ↦ rw (missing, onto) (queue_rows-All is_locked db rows h.1)
              | inr (c, found) ↦
                  rw (found, onto)
                    (
                      joined-IsQueuedRun is_locked id run db c h.0 selected found,
                      queue_rows-All is_locked db rows h.1,
                    )
            ])
    ]

pub queued_candidates-All :
    (is_locked : ℕ → Bool) (db : Database)
    → IsUnique db.runs
    → All (IsQueuedRun db) (queued_candidates is_locked db)
unfolding queued_candidates
queued_candidates-All is_locked db h =
    All-order_by queue_lt (IsQueuedRun db) _
      (queue_rows-All is_locked db db.runs (IsUnique-IsFound db.runs h))

-- The run may be admitted as far as its manifest, its ticker's lock and its ticker's runs go.
abbrev pub may_run : (LockKey → Bool) → Bool → Database → Candidate → Bool
may_run is_held required db c = not (lacks_manifest required c) && is_eligible is_held db c

-- The loop stops at the first candidate that may run.
pub record IsFirst (is_held : LockKey → Bool) (required : Bool) (db : Database)
    (cs : List Candidate) (c : Candidate) : Type 0 where
  pub before : List Candidate
  pub after : List Candidate
  pub split : cs ≡ before ++ c ∷ after
  pub passed_over : All (λ x. may_run is_held required db x ≡ false) before
  pub fit : may_run is_held required db c ≡ true

IsFirst-cons :
    {is_held : LockKey → Bool} {required : Bool} {db : Database} {cs : List Candidate}
    {c : Candidate} (x : Candidate)
    → may_run is_held required db x ≡ false
    → IsFirst is_held required db cs c
    → IsFirst is_held required db (x ∷ cs) c
IsFirst-cons x h f = record {
  before = x ∷ f.before;
  after = f.after;
  split = ap (λ l. x ∷ l) f.split;
  passed_over = (h, f.passed_over);
  fit = f.fit;
}

IsFirst-head :
    {is_held : LockKey → Bool} {required : Bool} {db : Database} {c : Candidate} (x : Candidate)
    (cs : List Candidate)
    → may_run is_held required db x ≡ true
    → x ≡ c
    → IsFirst is_held required db (x ∷ cs) c
IsFirst-head {is_held} {required} {db} x cs h e =
    subst (IsFirst is_held required db (x ∷ cs)) e
      (record { before = []; after = cs; split = refl; passed_over = tt; fit = h })

same_candidate :
    (x c : Candidate) (missing m : Bool)
    → ◌≡◌ {A = Option Candidate × Bool} (some x, missing) (some c, m)
    → x ≡ c
same_candidate x c missing m h = ground arith

pub select_candidate-IsFirst :
    (is_held : LockKey → Bool) (required : Bool) (db : Database) (cs : List Candidate)
    (missing : Bool) {c : Candidate} {m : Bool}
    → select_candidate is_held required db cs missing ≡ (some c, m)
    → IsFirst is_held required db cs c
unfolding select_candidate
select_candidate-IsFirst is_held required db [] missing h = cc
select_candidate-IsFirst is_held required db (x ∷ cs) missing {c} {m} h =
    elim (Bool-cases (lacks_manifest required x)) [
      | inl lacks ↦
          IsFirst-cons x (rw lacks)
            (select_candidate-IsFirst is_held required db cs true (rw lacks at h))
      | inr has ↦ elim (Bool-cases (is_eligible is_held db x)) [
        | inl fit ↦
            IsFirst-head x cs (rw (has, fit)) (same_candidate x c missing m (rw (has, fit) at h))
        | inr unfit ↦
            IsFirst-cons x (rw (has, unfit))
              (select_candidate-IsFirst is_held required db cs missing (rw (has, unfit) at h))
      ]
    ]

pub All-middle :
    (P : Candidate → Type 0) (before after : List Candidate) (c : Candidate)
    → All P (before ++ c ∷ after)
    → P c
All-middle P [] after c h = h.0
All-middle P (x ∷ before) after c h = All-middle P before after c h.1

module _ (db : Database) (c : Candidate) (q : IsQueuedRun db c) (run' : AssessmentRun)
    (same_request : run'.request_id ≡ c.run.request_id) (admits : run'.status ≡ admitted) where
  abbrev runs' : Table AssessmentRun
  runs' = insert c.run_id run' db.runs

  -- Admitting a queued run makes one more run active.
  pub active_runs-admit : count_rows (λ run. is_active run.status) runs' ≡ active_runs db + 1
  unfolding active_runs is_active
  active_runs-admit = ground (
    arith,
    q,
    count_rows-insert (λ run. is_active run.status) c.run_id run' c.run db.runs q.stored,
  )

  has_ticker-candidate :
      (ticker : String)
      → has_ticker ticker db.requests db.instruments c.run
        ≡ str_eq c.instrument.canonical_ticker ticker
  unfolding has_ticker
  has_ticker-candidate ticker = rw (q.requested, q.for_instrument, has_ticker)

  has_ticker-admitted :
      (ticker : String)
      → has_ticker ticker db.requests db.instruments run'
        ≡ str_eq c.instrument.canonical_ticker ticker
  unfolding has_ticker
  has_ticker-admitted ticker =
      ap
        (λ id. elim (lookup id db.requests) [
          | none ↦ false
          | some request ↦ elim (lookup request.instrument_id db.instruments) [
            | none ↦ false
            | some instrument ↦ str_eq instrument.canonical_ticker ticker
          ]
        ])
        same_request
      ∙ has_ticker-candidate ticker

  -- It makes one more run active on its own ticker, and none on another.
  pub active_on-admit :
      (ticker : String)
      → count_rows
          (λ run. has_ticker ticker db.requests db.instruments run && is_active run.status)
          runs'
        ≡ active_on ticker db + bit (str_eq c.instrument.canonical_ticker ticker)
  unfolding active_on is_active
  active_on-admit ticker = ground (
    arith,
    q,
    has_ticker-candidate ticker,
    has_ticker-admitted ticker,
    count_rows-insert
        (λ run. has_ticker ticker db.requests db.instruments run && is_active run.status) c.run_id
        run' c.run db.runs q.stored,
  )
