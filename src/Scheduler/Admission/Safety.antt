-- ===== src/Scheduler/Admission/Safety.antt =====
-- `admit_one` of scheduler/repository.py: which run it admits, and what that keeps.
use mathlib.Core.Path.{subst}
use market_quorum.Prelude.{
  ℕ, ◌≤◌, ◌≡◌, refl, sym, ap, Bool, true, false, List, [], ◌∷◌, Option, none, some, String,
  str_eq_iff, arith, inl, inr,
}
use market_quorum.Prelude.Table.{Table, IsUnique}
use market_quorum.Prelude.Text.{Text}
use market_quorum.Prelude.Sorted.{order_by}
use market_quorum.Store.{Database, AssessmentRun}
use market_quorum.Store.Tx.{branch-eq, ok-eq, ok, pure}
use market_quorum.Scheduler.Policy.{
  AdmissionPolicy, AdmissionDecision, Reason, data_manifest_missing, ticker_active, queue_empty,
  admission_lock, GatewaySnapshot, SystemSnapshot,
}
use market_quorum.Scheduler.Metadata.{ExecutionMetadata, manifest_required}
use market_quorum.Scheduler.Snapshot.{ModelRoutingPolicy}
use market_quorum.Scheduler.Admission.{
  queue_rows, queue_lt, joined_candidate, Candidate, active_on, active_runs, LockKey,
  global_admission, queued_candidates, select_candidate,
}
use market_quorum.Scheduler.Admission.Counts.{IsFirst, select_candidate-IsFirst}
use market_quorum.Scheduler.Admission.Frames.{IsFrame, IsFrame-refl}
use market_quorum.Scheduler.Admission.Admit.{
  refuse, Services, record_sample, decide, decide_queue, admit_one,
}
use market_quorum.Scheduler.Admission.Outcome.{
  IsAdmission, Outcome, admission, admit_selected-cases, IsFrame-active_runs, IsFrame-active_on,
}

module _ (services : Services) (policy : AdmissionPolicy) (gateway : GatewaySnapshot)
    (system : SystemSnapshot) (metadata : ExecutionMetadata) (routing : Option ModelRoutingPolicy)
    (external : List Text) (is_held : LockKey → Bool) (is_locked : ℕ → Bool) (now new_id : ℕ) where
  abbrev sampled : Database → Database
  sampled = record_sample gateway system now

  queue_rows-sampled :
      (db : Database) (rows : Table AssessmentRun)
      → queue_rows is_locked (sampled db) rows ≡ queue_rows is_locked db rows
  unfolding record_sample joined_candidate
  queue_rows-sampled db [] = refl
  queue_rows-sampled db ((id, run) ∷ rows) = ground (arith, queue_rows-sampled db rows)

  queued_candidates-sampled :
      (db : Database) → queued_candidates is_locked (sampled db) ≡ queued_candidates is_locked db
  unfolding queued_candidates record_sample
  queued_candidates-sampled db = ap (order_by queue_lt) (queue_rows-sampled db db.runs)

  IsFirst-sampled :
      (db : Database) (cs : List Candidate) (c : Candidate)
      → IsFirst is_held (manifest_required metadata) (sampled db) cs c
      → IsFirst is_held (manifest_required metadata) db cs c
  unfolding active_on record_sample
  IsFirst-sampled db cs c f = record {
    before = f.before;
    after = f.after;
    split = f.split;
    passed_over = f.passed_over;
    fit = f.fit;
  }

  abbrev Admission : Database → Candidate → Database → Type 0
  Admission = IsAdmission policy (manifest_required metadata) is_held is_locked

  IsAdmission-sampled :
      (db : Database) (c : Candidate) (db' : Database)
      → Admission (sampled db) c db'
      → Admission db c db'
  unfolding active_on active_runs record_sample
  IsAdmission-sampled db c db' a = record {
    first = IsFirst-sampled db _ c (
        subst (λ cs. IsFirst is_held (manifest_required metadata) (sampled db) cs c)
          (queued_candidates-sampled db) a.first);
    stored = record {
      stored = a.stored.stored;
      is_queued = a.stored.is_queued;
      requested = a.stored.requested;
      for_instrument = a.stored.for_instrument;
    };
    within = a.within;
    marked = record {
      run' = a.marked.run';
      same_request = a.marked.same_request;
      admits = a.marked.admits;
      runs = a.marked.runs;
      requests = a.marked.requests;
      instruments = a.marked.instruments;
      leases = a.marked.leases;
    };
    counted = a.counted;
    alone = a.alone;
    on_tickers = a.on_tickers;
  }

  refused :
      (r : Reason) (db : Database) {d : AdmissionDecision} {db' : Database}
      → pure (refuse r) db ≡ ok (d, db')
      → Outcome policy (manifest_required metadata) is_held is_locked db d db'
  refused r db h =
      inr (ap (λ x. x.allowed) (sym (ok-eq h).0), subst (IsFrame db) (ok-eq h).1 IsFrame-refl)

  decide-Outcome :
      (cs : List Candidate) (choice : Option Candidate × Bool) (db : Database)
      {d : AdmissionDecision} {db' : Database}
      → IsUnique db.runs
      → queued_candidates is_locked db ≡ cs
      → select_candidate is_held (manifest_required metadata) db cs false ≡ choice
      → decide services policy gateway system metadata routing external is_held is_locked now new_id
          choice db
        ≡ ok (d, db')
      → Outcome policy (manifest_required metadata) is_held is_locked db d db'
  decide-Outcome cs (none, true) db u same chosen h = refused data_manifest_missing db h
  decide-Outcome cs (none, false) db u same chosen h = refused ticker_active db h
  decide-Outcome cs (some c, m) db {d} {db'} u same chosen h =
      elim (admit_selected-cases services policy gateway system metadata routing external is_held
        is_locked now new_id c db h) [
          | inl a ↦ inl (
            a.allows,
            c,
            admission services policy gateway system metadata routing external is_held is_locked now
                new_id db c u
                (rw same (
                  select_candidate-IsFirst is_held (manifest_required metadata) db cs false chosen))
                a,
          )
          | inr r ↦ inr (r.refuses, r.frame)
        ]

  decide_queue-Outcome :
      (cs : List Candidate) (db : Database) {d : AdmissionDecision} {db' : Database}
      → IsUnique db.runs
      → queued_candidates is_locked db ≡ cs
      → decide_queue services policy gateway system metadata routing external is_held is_locked now
          new_id cs db
        ≡ ok (d, db')
      → Outcome policy (manifest_required metadata) is_held is_locked db d db'
  decide_queue-Outcome [] db u same h = refused queue_empty db h
  decide_queue-Outcome (c ∷ cs) db u same h = decide-Outcome (c ∷ cs) _ db u same refl h

  -- Where the keys of the runs are unique, a call of `admit_one` that does not raise either
  -- allows, or refuses and leaves the runs, requests, instruments and leases as they are. Where
  -- it allows, it admits the first candidate in the queue that has the manifest it may need,
  -- whose ticker's lock is free and whose ticker has no active run; fewer than
  -- `max_running_total` runs were active, one more is active now, and it is on the candidate's
  -- ticker.
  pub admit_one-Outcome :
      (db : Database) {d : AdmissionDecision} {db' : Database}
      → IsUnique db.runs
      → admit_one services policy gateway system metadata routing external is_held is_locked now
          new_id db
        ≡ ok (d, db')
      → Outcome policy (manifest_required metadata) is_held is_locked db d db'
  unfolding admit_one record_sample
  admit_one-Outcome db {d} {db'} u h = elim (branch-eq (is_held global_admission) _ _ db h) [
    | inl (_, k) ↦ refused admission_lock db k
    | inr (_, k) ↦ elim (decide_queue-Outcome _ (sampled db) u refl k) [
      | inl (allows, c, a) ↦ inl (allows, c, IsAdmission-sampled db c db' a)
      | inr (refuses, f) ↦ inr (
        refuses,
        record {
          runs = f.runs;
          requests = f.requests;
          instruments = f.instruments;
          leases = f.leases;
        },
      )
    ]
  ]

  -- Where the keys of the runs are unique, a call of `admit_one` that does not raise keeps that
  -- at most one run is active on each ticker and that at most `max_running_total` runs are
  -- active.
  pub admit_one-exclusive :
      (db : Database) {d : AdmissionDecision} {db' : Database}
      → IsUnique db.runs
      → ((ticker : String) → active_on ticker db ≤ 1)
      → active_runs db ≤ policy.max_running_total
      → admit_one services policy gateway system metadata routing external is_held is_locked now
          new_id db
        ≡ ok (d, db')
      → ((ticker : String) → active_on ticker db' ≤ 1)
        × (active_runs db' ≤ policy.max_running_total)
  unfolding active_on active_runs
  admit_one-exclusive db {d} {db'} u alone within h = elim (admit_one-Outcome db u h) [
    | inl (allows, c, a) ↦ (
      λ ticker. ground (
        arith,
        a.on_tickers ticker,
        a.alone,
        alone ticker,
        str_eq_iff c.instrument.canonical_ticker ticker,
      ),
      ground (arith, a.counted, a.within),
    )
    | inr (refuses, f) ↦ (
      λ ticker. subst (λ n. n ≤ 1) (sym (IsFrame-active_on f ticker)) (alone ticker),
      subst (λ n. n ≤ policy.max_running_total) (sym (IsFrame-active_runs f)) within,
    )
  ]
