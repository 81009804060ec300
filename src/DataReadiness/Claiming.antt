-- ===== src/DataReadiness/Claiming.antt =====
-- Which requirement `claim_due` of data_readiness/repository.py takes.
use mathlib.Core.Path.{subst}
use market_quorum.Prelude.{
  ℕ, ◌+◌, ◌≡◌, refl, ap, ◌∙◌, Bool, true, keep, All, All-keep, first-eq_some, keep-All, Option,
  none, some, String, str_eq_iff, arith,
}
use market_quorum.Prelude.Table.{
  lookup, insert, lookup-insert_self, IsUnique, IsUnique-IsFound, IsFound-All,
}
use market_quorum.Prelude.Sorted.{order_by, All-order_by}
use market_quorum.Store.{Database, AssessmentDataRequirement}
use market_quorum.Store.Tx.{ok}
use market_quorum.Scheduler.Circuits.{seconds}
use market_quorum.DataReadiness.{
  DataRequirementClaim, is_due, due_lt, next_due, leased_to, claim_of, claim_requirement, claim_due,
  locked, held_by,
}

next_due-lem :
    (is_locked : ℕ → Bool) (now : ℕ) (db : Database) {id : ℕ} {r : AssessmentDataRequirement}
    → IsUnique db.requirements
    → next_due is_locked now db ≡ some (id, r)
    → (lookup id db.requirements ≡ some r) × (is_due is_locked now db.runs (id, r) ≡ true)
unfolding next_due
next_due-lem is_locked now db u h =
    let p = is_due is_locked now db.runs in
    let rows = keep p db.requirements in
    let (t, e) = first-eq_some (order_by due_lt rows) h in
    let found = subst (All (λ (k, v). lookup k db.requirements ≡ some v)) e (
      All-order_by due_lt _ rows (
        All-keep _ p db.requirements
          (IsFound-All db.requirements db.requirements (IsUnique-IsFound db.requirements u)))) in
    let due =
      subst (All (λ x. p x ≡ true)) e (All-order_by due_lt _ rows (keep-All p db.requirements)) in
    (found.0, due.0)

-- The requirement was due, and belongs to the claim until the lease runs out.
pub record IsTaken (is_locked : ℕ → Bool) (worker : String) (until now : ℕ)
    (claim : DataRequirementClaim) (db db' : Database) : Type 0 where
  pub row : AssessmentDataRequirement
  pub found : lookup claim.requirement_id db.requirements ≡ some row
  pub due : is_due is_locked now db.runs (claim.requirement_id, row) ≡ true
  pub for_run : claim.run_id ≡ row.run_id
  pub held : locked claim db' ≡ some (leased_to worker until row)
  pub runs : db'.runs ≡ db.runs

leased-held :
    (id : ℕ) (worker : String) (until : ℕ) (r : AssessmentDataRequirement)
    → held_by (claim_of id worker r) (some (leased_to worker until r))
      ≡ some (leased_to worker until r)
leased-held id worker until r = ground (arith, str_eq_iff worker worker)

taken :
    (is_locked : ℕ → Bool) (worker : String) (until now : ℕ) (db : Database) (id : ℕ)
    (r : AssessmentDataRequirement)
    → lookup id db.requirements ≡ some r
    → is_due is_locked now db.runs (id, r) ≡ true
    → IsTaken is_locked worker until now
        (claim_of id worker r)
        db
        (record db { requirements = insert id (leased_to worker until r) db.requirements })
unfolding locked
taken is_locked worker until now db id r found due = record {
  row = r;
  found = found;
  due = due;
  for_run = refl;
  held =
      ap (held_by (claim_of id worker r))
        (lookup-insert_self id (leased_to worker until r) db.requirements)
      ∙ leased-held id worker until r;
  runs = refl;
}

claim_requirement-IsTaken :
    (is_locked : ℕ → Bool) (worker : String) (until now : ℕ) (db : Database)
    (o : Option (ℕ × AssessmentDataRequirement)) {claim : DataRequirementClaim} {db' : Database}
    → IsUnique db.requirements
    → next_due is_locked now db ≡ o
    → claim_requirement worker until o db ≡ ok (some claim, db')
    → IsTaken is_locked worker until now claim db db'
claim_requirement-IsTaken is_locked worker until now db none u e h = ground arith
claim_requirement-IsTaken is_locked worker until now db (some (id, r)) {claim} {db'} u e h =
    let (found, due) = next_due-lem is_locked now db u e in
    let same : claim_of id worker r ≡ claim = ground arith in
    let db1 : Database = record db {
      requirements = insert id (leased_to worker until r) db.requirements;
    } in
    let same_db : db1 ≡ db' = ground arith in
    subst (λ c. IsTaken is_locked worker until now c db db') same
      (subst (IsTaken is_locked worker until now (claim_of id worker r) db) same_db
        (taken is_locked worker until now db id r found due))

-- Where the keys of the requirements are unique, a claim that `claim_due` returns is of a
-- requirement that was waiting, whose run waited for its data, whose time had come, whose lease
-- had run out or was missing, and that nobody had locked; the requirement is now leased to the
-- worker, the claim holds, and no run has changed.
pub claim_due-IsTaken :
    (is_locked : ℕ → Bool) (worker : String) (lease_seconds now : ℕ) (db : Database)
    {claim : DataRequirementClaim} {db' : Database}
    → IsUnique db.requirements
    → claim_due is_locked worker lease_seconds now db ≡ ok (some claim, db')
    → IsTaken is_locked worker (now + seconds lease_seconds) now claim db db'
unfolding claim_due
claim_due-IsTaken is_locked worker lease_seconds now db u h =
    claim_requirement-IsTaken is_locked worker (now + seconds lease_seconds) now db
      (next_due is_locked now db) u refl h
