-- ===== src/Worker/Recovery/Reclaimed.antt =====
-- What `recover_stale_leases` of worker/repository.py does to a run that holds a lease.
use mathlib.Core.Path.{subst}
use market_quorum.Prelude.{
  ℕ, ◌+◌, ◌==◌, ==_iff, ◌≡◌, ◌≢◌, refl, ap, ◌∙◌, Bool, true, false, List, [], ◌∷◌, Option, none,
  some, arith, if◌then◌else◌, Bool-cases, Option-cases, inl, inr, All, All-keep, keep,
}
use market_quorum.Prelude.Table.{
  Table, lookup, erase, lookup-insert_self, lookup-insert_ne, lookup-erase, lookup-none-All,
  IsUnique,
}
use market_quorum.Domain.Runs.{admitted, needs_attention}
use market_quorum.Store.{Database, AssessmentRun, WorkerLease}
use market_quorum.Worker.Recovery.{
  has_process, recover_lease, recover_leases, is_stale, recover_stale_leases,
}

-- The run after a recovery: it needs attention where the process still lives, else it waits for a
-- worker again, in its next attempt.
abbrev pub recovered_run : Bool → AssessmentRun → AssessmentRun
recovered_run true run = record run {
  status = needs_attention;
  error_code = some "stale_lease_process_alive";
  version = run.version + 1;
}
recovered_run false run = record run {
  status = admitted;
  attempt = run.attempt + 1;
  version = run.version + 1;
}

abbrev pub recovered_lease : Bool → WorkerLease → Option WorkerLease
recovered_lease alive lease = if alive then some lease else none

pair-eq : {A B : Type 0} {x x' : A} {y y' : B} → x ≡ x' → y ≡ y' → ◌≡◌ {A = A × B} (x, y) (x', y')
pair-eq {x' = x'} {y = y} e e' = ap (λ a. (a, y)) e ∙ ap (λ b. (x', b)) e'

module _ (is_alive : ℕ → Bool) (run_id : ℕ) where
  -- What the tables say of the run and of its lease.
  abbrev rows : Database → Option AssessmentRun × Option WorkerLease
  rows db = (lookup run_id db.runs, lookup run_id db.leases)

  kept_lease :
      (j : ℕ) (db : Database)
      → run_id ≢ j
      → lookup run_id (erase j db.leases) ≡ lookup run_id db.leases
  kept_lease j db ne = lookup-erase run_id j db.leases ∙ ground arith

  own_lease : (db : Database) → lookup run_id (erase run_id db.leases) ≡ none
  own_lease db = lookup-erase run_id run_id db.leases ∙ ground arith

  rows-other :
      (j : ℕ) (lease : WorkerLease) (r a : ℕ) (db : Database)
      → run_id ≢ j
      → rows (recover_lease is_alive (j, lease) (r, a, db)).2 ≡ rows db
  unfolding recover_lease
  rows-other j lease r a db ne = elim (Option-cases (lookup j db.runs)) [
    | inl missing ↦
        rw (missing, recover_lease) (ap (λ l. (lookup run_id db.runs, l)) (kept_lease j db ne))
    | inr (run, found) ↦ elim (Bool-cases (has_process is_alive lease)) [
      | inl alive ↦
          rw (found, alive, recover_lease)
            (ap (λ r. (r, lookup run_id db.leases)) (lookup-insert_ne run_id j _ db.runs ne))
      | inr dead ↦
          rw (found, dead, recover_lease)
            (pair-eq (lookup-insert_ne run_id j _ db.runs ne) (kept_lease j db ne))
    ]
  ]

  rows-own :
      (lease : WorkerLease) (run : AssessmentRun) (r a : ℕ) (db : Database)
      → lookup run_id db.runs ≡ some run
      → lookup run_id db.leases ≡ some lease
      → rows (recover_lease is_alive (run_id, lease) (r, a, db)).2 ≡ (
        some (recovered_run (has_process is_alive lease) run),
        recovered_lease (has_process is_alive lease) lease,
      )
  unfolding recover_lease
  rows-own lease run r a db found held = elim (Bool-cases (has_process is_alive lease)) [
    | inl alive ↦
        rw (found, alive, held, recover_lease) (pair-eq (lookup-insert_self run_id _ db.runs) refl)
    | inr dead ↦
        rw (found, dead, recover_lease)
          (pair-eq (lookup-insert_self run_id _ db.runs) (own_lease db))
  ]

  rows-absent :
      (ls : List (ℕ × WorkerLease)) (r a : ℕ) (db : Database)
      → All (λ (j, _). run_id ≢ j) ls
      → rows (recover_leases is_alive ls (r, a, db)).2 ≡ rows db
  unfolding recover_leases
  rows-absent [] r a db h = refl
  rows-absent ((j, lease) ∷ ls) r a db h =
      let (r', a', db') = recover_lease is_alive (j, lease) (r, a, db) in
      rows-absent ls r' a' db' h.1 ∙ rows-other j lease r a db h.0

  module _ (p : ℕ × WorkerLease → Bool) (lease : WorkerLease) (run : AssessmentRun) where
    abbrev expected : Option AssessmentRun × Option WorkerLease
    expected =
        if p (run_id, lease)
        then (
          some (recovered_run (has_process is_alive lease) run),
          recovered_lease (has_process is_alive lease) lease,
        )
        else (some run, some lease)

    rows-head :
        (t : Table WorkerLease) (r a : ℕ) (db : Database)
        → lookup run_id t ≡ none
        → lookup run_id db.runs ≡ some run
        → lookup run_id db.leases ≡ some lease
        → rows (recover_leases is_alive (keep p ((run_id, lease) ∷ t)) (r, a, db)).2 ≡ expected
    unfolding recover_leases
    rows-head t r a db absent found held =
        let others = All-keep (λ (j, _). run_id ≢ j) p t (lookup-none-All run_id t absent) in
        elim (Bool-cases (p (run_id, lease))) [
          | inl stale ↦
              let (r', a', db') = recover_lease is_alive (run_id, lease) (r, a, db) in
              rw stale
                (rows-absent (keep p t) r' a' db' others ∙ rows-own lease run r a db found held)
          | inr fresh ↦ rw fresh (rows-absent (keep p t) r a db others ∙ pair-eq found held)
        ]

    -- The run's lease is among those of a table whose keys are unique.
    rows-listed :
        (t : Table WorkerLease) (r a : ℕ) (db : Database)
        → IsUnique t
        → lookup run_id t ≡ some lease
        → lookup run_id db.runs ≡ some run
        → lookup run_id db.leases ≡ some lease
        → rows (recover_leases is_alive (keep p t) (r, a, db)).2 ≡ expected
    unfolding recover_leases
    rows-listed [] r a db u e found held = cc
    rows-listed ((j, w) ∷ t) r a db u e found held = elim (Bool-cases (run_id == j)) [
      | inl same ↦
          let key : run_id ≡ j = (==_iff run_id j).0 same in
          let row : ◌≡◌ {A = ℕ × WorkerLease} (run_id, lease) (j, w) = pair-eq key (ground arith) in
          subst (λ x. rows (recover_leases is_alive (keep p (x ∷ t)) (r, a, db)).2 ≡ expected) row
            (rows-head t r a db (ap (λ k. lookup k t) key ∙ u.0) found held)
      | inr differs ↦
          let ne : run_id ≢ j = ground arith in
          elim (Bool-cases (p (j, w))) [
            | inl stale ↦
                let (r', a', db') = recover_lease is_alive (j, w) (r, a, db) in
                let kept = rows-other j w r a db ne in
                rw stale (
                  rows-listed t r' a' db' u.1 (rw differs at e) (ap (λ x. x.0) kept ∙ found)
                    (ap (λ x. x.1) kept ∙ held))
            | inr fresh ↦ rw fresh (rows-listed t r a db u.1 (rw differs at e) found held)
          ]
    ]

  -- For a run that is found and has a lease, where the keys of the leases are unique: if the
  -- lease has expired and nobody has locked it, `recover_stale_leases` makes the run need
  -- attention and keeps the lease where the runner's process exists, and else admits the run
  -- again in its next attempt and deletes the lease, whatever the run's status was; if not, it
  -- leaves the run and the lease as they are.
  pub recover_stale_leases_lem :
      (is_locked : ℕ → Bool) (now : ℕ) (lease : WorkerLease) (run : AssessmentRun) (db : Database)
      → IsUnique db.leases
      → lookup run_id db.runs ≡ some run
      → lookup run_id db.leases ≡ some lease
      → rows (recover_stale_leases is_locked is_alive now db).2 ≡ (
          if is_stale is_locked now (run_id, lease)
          then (
            some (recovered_run (has_process is_alive lease) run),
            recovered_lease (has_process is_alive lease) lease,
          )
          else (some run, some lease))
  unfolding recover_stale_leases
  recover_stale_leases_lem is_locked now lease run db u found held =
      rows-listed (is_stale is_locked now) lease run db.leases 0 0 db u held found held
