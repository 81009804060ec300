-- ===== src/Scheduler/Admission/Outcome.antt =====
-- What `admit_one` of scheduler/repository.py does to the runs once it has a candidate.
use mathlib.Core.Path.{subst}
use market_quorum.Prelude.{
  ℕ, ◌+◌, ◌<◌, ◌≡◌, refl, sym, ◌∙◌, ap, Bool, true, false, List, Option, some, String, str_eq,
  arith, bit, All, ◌⊎◌, inl, inr,
}
use market_quorum.Prelude.Table.{count_rows, IsUnique}
use market_quorum.Prelude.Text.{Text}
use market_quorum.Store.{Database}
use market_quorum.Store.Tx.{
  Tx, branch-eq, ok-eq, ok, pure, ◌>>◌, >>=-eq-ok, >>-pure-eq-ok, or_raise-eq-ok, value_error,
}
use market_quorum.Scheduler.Policy.{
  AdmissionPolicy, AdmissionDecision, GatewaySnapshot, SystemSnapshot, CapacitySnapshot, evaluate,
}
use market_quorum.Scheduler.Policy.Limits.{evaluate_allowed_iff}
use market_quorum.Scheduler.Metadata.{ExecutionMetadata, manifest_required}
use market_quorum.Scheduler.Snapshot.{ModelRoutingPolicy}
use market_quorum.Scheduler.Admission.{
  is_active, Candidate, active_on, active_runs, LockKey, queued_candidates,
}
use market_quorum.Scheduler.Admission.Counts.{
  IsQueuedRun, IsFirst, queued_candidates-All, All-middle, active_runs-admit, active_on-admit,
}
use market_quorum.Scheduler.Admission.Frames.{
  IsFrame, IsFrame-refl, IsMarked, IsFrame-IsMarked, take_probes-IsFrame, admit_candidate-IsMarked,
}
use market_quorum.Scheduler.Admission.Admit.{
  Services, capacity, admit_candidate, take_probes, proceed, apply_decision, admit_selected,
}

-- The limits hold, and the run of the candidate is admitted.
pub record IsAdmitted (policy : AdmissionPolicy) (db : Database) (c : Candidate)
    (d : AdmissionDecision) (db' : Database) : Type 0 where
  pub allows : d.allowed ≡ true
  pub within : active_runs db < policy.max_running_total
  pub marked : IsMarked db c db'

-- The tables of runs are as they were.
pub record IsRefused (db : Database) (d : AdmissionDecision) (db' : Database) : Type 0 where
  pub refuses : d.allowed ≡ false
  pub frame : IsFrame db db'

-- A run was admitted: the queue's first candidate that may run.
pub record IsAdmission (policy : AdmissionPolicy) (required : Bool) (is_held : LockKey → Bool)
    (is_locked : ℕ → Bool) (db : Database) (c : Candidate) (db' : Database) : Type 0 where
  pub first : IsFirst is_held required db (queued_candidates is_locked db) c
  pub stored : IsQueuedRun db c
  pub within : active_runs db < policy.max_running_total
  pub marked : IsMarked db c db'
  pub counted : active_runs db' ≡ active_runs db + 1
  pub alone : active_on c.instrument.canonical_ticker db ≡ 0
  pub on_tickers :
      (ticker : String)
      → active_on ticker db'
        ≡ active_on ticker db + bit (str_eq c.instrument.canonical_ticker ticker)

-- What a call that does not raise has done.
abbrev pub Outcome :
    AdmissionPolicy
    → Bool
    → (LockKey → Bool)
    → (ℕ → Bool)
    → Database
    → AdmissionDecision
    → Database
    → Type 0
Outcome policy required is_held is_locked db d db' =
    ((d.allowed ≡ true) × (c : Candidate) × IsAdmission policy required is_held is_locked db c db')
    ⊎ ((d.allowed ≡ false) × IsFrame db db')

module _ {db db' : Database} {c : Candidate} (q : IsQueuedRun db c) (m : IsMarked db c db') where
  IsMarked-active_runs : active_runs db' ≡ active_runs db + 1
  unfolding active_runs
  IsMarked-active_runs =
      ap (count_rows (λ run. is_active run.status)) m.runs
      ∙ active_runs-admit db c q m.run' m.same_request m.admits

  IsMarked-active_on :
      (ticker : String)
      → active_on ticker db'
        ≡ active_on ticker db + bit (str_eq c.instrument.canonical_ticker ticker)
  unfolding active_on
  IsMarked-active_on ticker =
      rw (m.runs, m.requests, m.instruments)
        (active_on-admit db c q m.run' m.same_request m.admits ticker)

module _ {db db' : Database} (f : IsFrame db db') where
  pub IsFrame-active_runs : active_runs db' ≡ active_runs db
  unfolding active_runs
  IsFrame-active_runs = ap (count_rows (λ run. is_active run.status)) f.runs

  pub IsFrame-active_on : (ticker : String) → active_on ticker db' ≡ active_on ticker db
  unfolding active_on
  IsFrame-active_on ticker = rw (f.runs, f.requests, f.instruments) refl

module _ (services : Services) (policy : AdmissionPolicy) (gateway : GatewaySnapshot)
    (system : SystemSnapshot) (metadata : ExecutionMetadata) (routing : Option ModelRoutingPolicy)
    (external : List Text) (is_held : LockKey → Bool) (is_locked : ℕ → Bool) (now new_id : ℕ) where
  capacity-active_runs :
      (db : Database) (readings : CapacitySnapshot Text)
      → capacity metadata gateway system external now db ≡ some readings
      → readings.active_runs ≡ active_runs db
  unfolding capacity
  capacity-active_runs db readings h = ground arith

  abbrev proceed_here : Candidate → AdmissionDecision → Tx AdmissionDecision
  proceed_here =
      proceed services policy gateway system metadata routing external is_held is_locked now new_id

  proceed-IsMarked :
      (c : Candidate) (decision : AdmissionDecision) (db : Database) {d : AdmissionDecision}
      {db' : Database}
      → proceed_here c decision db ≡ ok (d, db')
      → IsMarked db c db' × (d ≡ decision)
  proceed-IsMarked c decision db h =
      let (_, db1, e, k) =
        >>=-eq-ok (take_probes metadata now)
          (λ _. admit_candidate services c gateway metadata routing new_id now >> pure decision) db
          h in
      let (_, e2, same) =
        >>-pure-eq-ok (admit_candidate services c gateway metadata routing new_id now) decision db1
          k in
      (
        IsFrame-IsMarked (take_probes-IsFrame metadata now db e)
            (admit_candidate-IsMarked services c gateway metadata routing new_id now db1 e2),
        same,
      )

  abbrev apply_here : Candidate → AdmissionDecision → Tx AdmissionDecision
  apply_here =
      apply_decision services policy gateway system metadata routing external is_held is_locked now
        new_id

  apply_decision-cases :
      (c : Candidate) (readings : CapacitySnapshot Text) (db : Database) {d : AdmissionDecision}
      {db' : Database}
      → readings.active_runs ≡ active_runs db
      → apply_here c (evaluate policy readings) db ≡ ok (d, db')
      → IsAdmitted policy db c d db' ⊎ IsRefused db d db'
  apply_decision-cases c readings db same h =
      let decision = evaluate policy readings in
      elim (branch-eq decision.allowed (proceed_here c decision) (pure decision) db h) [
        | inl (allowed, k) ↦
            let (marked, e) = proceed-IsMarked c decision db k in
            let limits = (evaluate_allowed_iff policy readings).0 allowed in
            inl record {
              allows = ap (λ x. x.allowed) e ∙ allowed;
              within = subst (λ n. n < policy.max_running_total) same limits.runs;
              marked = marked;
            }
        | inr (refused, k) ↦ inr record {
          refuses = ap (λ x. x.allowed) (sym (ok-eq k).0) ∙ refused;
          frame = subst (IsFrame db) (ok-eq k).1 IsFrame-refl;
        }
      ]

  abbrev selected_here : Candidate → Tx AdmissionDecision
  selected_here =
      admit_selected services policy gateway system metadata routing external is_held is_locked now
        new_id

  pub admit_selected-cases :
      (c : Candidate) (db : Database) {d : AdmissionDecision} {db' : Database}
      → selected_here c db ≡ ok (d, db')
      → IsAdmitted policy db c d db' ⊎ IsRefused db d db'
  unfolding admit_selected
  admit_selected-cases c db h =
      let (readings, e, k) =
        or_raise-eq-ok (capacity metadata gateway system external now db)
          (value_error "vendor name") (λ readings. apply_here c (evaluate policy readings)) db h in
      apply_decision-cases c readings db (capacity-active_runs db readings e) k

  pub admission :
      (db : Database) (c : Candidate) {d : AdmissionDecision} {db' : Database}
      → IsUnique db.runs
      → IsFirst is_held (manifest_required metadata) db (queued_candidates is_locked db) c
      → IsAdmitted policy db c d db'
      → IsAdmission policy (manifest_required metadata) is_held is_locked db c db'
  admission db c u f a =
      let q =
        All-middle (IsQueuedRun db) f.before f.after c
          (subst (All (IsQueuedRun db)) f.split (queued_candidates-All is_locked db u)) in
      record {
        first = f;
        stored = q;
        within = a.within;
        marked = a.marked;
        counted = IsMarked-active_runs q a.marked;
        alone = ground (arith, f.fit);
        on_tickers = IsMarked-active_on q a.marked;
      }
