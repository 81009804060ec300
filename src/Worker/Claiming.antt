-- ===== src/Worker/Claiming.antt =====
-- Which run `claim` of worker/repository.py takes, and how two claims stand to each other.
use mathlib.Core.Path.{subst}
use market_quorum.Prelude.{
  ℕ, ◌+◌, ◌≡◌, ◌≢◌, refl, sym, ap, ◌∙◌, Bool, true, false, keep, All, All-keep, All-of_keep,
  first-eq_some, keep-All, Option, none, some, arith, get_or_else,
}
use market_quorum.Prelude.Table.{
  Table, lookup, lookup-All, lookup-insert_self, insert, insert-IsUnique, IsUnique, IsFound-All,
  IsUnique-IsFound,
}
use market_quorum.Prelude.Sorted.{
  key_lt, by_key, order_by, order_by-IsLeast, by_key-IsOrder, All-order_by,
}
use market_quorum.Domain.Runs.{starting}
use market_quorum.Store.{Database, AssessmentRun}
use market_quorum.Store.Tx.{ok, ok-eq, pure, >>=-eq-ok}
use market_quorum.Worker.{
  claim_key, is_claimable, next_admitted, ClaimedRun, claimed_run, claim_run, claim_next, claim,
  new_lease,
}

-- The run is the first in the queue of those that a worker may take.
pub record IsNext (is_locked : ℕ → Bool) (runs : Table AssessmentRun) (run_id : ℕ)
    (run : AssessmentRun) : Type 0 where
  pub stored : lookup run_id runs ≡ some run
  pub claimable : is_claimable is_locked (run_id, run) ≡ true
  pub first :
      (j : ℕ) (other : AssessmentRun)
      → lookup j runs ≡ some other
      → is_claimable is_locked (j, other) ≡ true
      → key_lt (claim_key (j, other)) (claim_key (run_id, run)) ≡ false

next_admitted-IsNext :
    (is_locked : ℕ → Bool) (runs : Table AssessmentRun) {run_id : ℕ} {run : AssessmentRun}
    → IsUnique runs
    → next_admitted is_locked runs ≡ some (run_id, run)
    → IsNext is_locked runs run_id run
unfolding next_admitted
next_admitted-IsNext is_locked runs {run_id} {run} u h =
    let rows = keep (is_claimable is_locked) runs in
    let lt = by_key claim_key in
    let (t, e) = first-eq_some (order_by lt rows) h in
    let found = subst (All (λ (k, v). lookup k runs ≡ some v)) e (
      All-order_by lt _ rows (
        All-keep _ (is_claimable is_locked) runs
          (IsFound-All runs runs (IsUnique-IsFound runs u)))) in
    let claimable =
      subst (All (λ x. is_claimable is_locked x ≡ true)) e
        (All-order_by lt _ rows (keep-All (is_claimable is_locked) runs)) in
    let least =
      All-of_keep (λ x. by_key claim_key x (run_id, run) ≡ false) (is_claimable is_locked) runs
        (order_by-IsLeast (by_key-IsOrder claim_key) rows e) in
    record {
      stored = found.0;
      claimable = claimable.0;
      first = λ j other at free.
          lookup-All
            (λ x. is_claimable is_locked x ≡ true → by_key claim_key x (run_id, run) ≡ false) j
            other runs least at free;
    }

-- The worker has the run: it is starting, and its lease is new and the worker's.
pub record IsClaimed (worker_id now run_id : ℕ) (run : AssessmentRun) (db db' : Database)
    : Type 0 where
  pub free : lookup run_id db.leases ≡ none
  pub run' : AssessmentRun
  pub starts : run'.status ≡ starting
  pub attempt : run'.attempt ≡ run.attempt
  pub runs : db'.runs ≡ insert run_id run' db.runs
  pub leases : db'.leases ≡ insert run_id (new_lease worker_id now) db.leases

claim_run-IsClaimed :
    (worker_id now run_id : ℕ) (run : AssessmentRun) (db : Database) {c : ClaimedRun}
    {db' : Database}
    → claim_run worker_id now run_id run db ≡ ok (c, db')
    → IsClaimed worker_id now run_id run db db' × (c.run_id ≡ run_id)
unfolding claim_run claimed_run
claim_run-IsClaimed worker_id now run_id run db {c} {db'} h =
    let run' : AssessmentRun = record run {
      status = starting;
      started_at = some (get_or_else run.started_at now);
      version = run.version + 1;
    } in
    let runs : db'.runs ≡ insert run_id run' db.runs = ground arith in
    let leases : db'.leases ≡ insert run_id (new_lease worker_id now) db.leases = ground arith in
    (
      record {
        free = ground arith;
        run' = run';
        starts = refl;
        attempt = refl;
        runs = runs;
        leases = leases;
      },
      ground arith,
    )

claim_found-IsClaimed :
    (is_locked : ℕ → Bool) (worker_id now : ℕ) (db : Database) (next : Option (ℕ × AssessmentRun))
    {c : ClaimedRun} {db' : Database}
    → IsUnique db.runs
    → next_admitted is_locked db.runs ≡ next
    → claim_next worker_id now next db ≡ ok (some c, db')
    → (run : AssessmentRun) × IsNext is_locked db.runs c.run_id run
      × IsClaimed worker_id now c.run_id run db db'
claim_found-IsClaimed is_locked worker_id now db none u e h = ground arith
claim_found-IsClaimed is_locked worker_id now db (some (run_id, run)) {c} {db'} u e h =
    let (c', db1, m, k) =
      >>=-eq-ok (claim_run worker_id now run_id run) (λ c. pure (some c)) db h in
    let (claimed, named) = claim_run-IsClaimed worker_id now run_id run db m in
    let same_run : c.run_id ≡ run_id = ground (arith, k, named) in
    let same : db1 ≡ db' = (ok-eq k).1 in
    (
      run,
      subst (λ id. IsNext is_locked db.runs id run) (sym same_run)
          (next_admitted-IsNext is_locked db.runs u e),
      subst (λ d. IsClaimed worker_id now c.run_id run db d) same
          (subst (λ id. IsClaimed worker_id now id run db db1) (sym same_run) claimed),
    )

-- Where the keys of the runs are unique, a call of `claim` that returns a run returns an admitted
-- run that nobody has locked, before which no other such run was admitted; the run had no lease,
-- is starting now, and its lease is new and the worker's.
pub claim-IsClaimed :
    (is_locked : ℕ → Bool) (worker_id now : ℕ) (db : Database) {c : ClaimedRun} {db' : Database}
    → IsUnique db.runs
    → claim is_locked worker_id now db ≡ ok (some c, db')
    → (run : AssessmentRun) × IsNext is_locked db.runs c.run_id run
      × IsClaimed worker_id now c.run_id run db db'
unfolding claim
claim-IsClaimed is_locked worker_id now db u h =
    claim_found-IsClaimed is_locked worker_id now db _ u refl h

contradicts : {A : Type 0} {o : Option A} {a : A} → o ≡ some a → o ≡ none → ⊥
contradicts h h' = cc

-- Where the keys of the runs are unique, two calls of `claim`, one after the other, that both
-- return a run return different runs.
pub claims-differ :
    (is_locked other_locked : ℕ → Bool) (worker_id other_id now later : ℕ) (db : Database)
    {c d : ClaimedRun} {db' db'' : Database}
    → IsUnique db.runs
    → claim is_locked worker_id now db ≡ ok (some c, db')
    → claim other_locked other_id later db' ≡ ok (some d, db'')
    → c.run_id ≢ d.run_id
claims-differ is_locked other_locked worker_id other_id now later db {c} {d} {db'} u h h' same =
    let (run, next, a) = claim-IsClaimed is_locked worker_id now db u h in
    let u' = subst IsUnique (sym a.runs) (insert-IsUnique c.run_id a.run' db.runs u) in
    let (other, next', b) = claim-IsClaimed other_locked other_id later db' u' h' in
    let held : lookup c.run_id db'.leases ≡ some (new_lease worker_id now) =
      ap (lookup c.run_id) a.leases ∙ lookup-insert_self c.run_id _ db.leases in
    let free : lookup c.run_id db'.leases ≡ none = ap (λ id. lookup id db'.leases) same ∙ b.free in
    contradicts held free
