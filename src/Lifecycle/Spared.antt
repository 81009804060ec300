-- ===== src/Lifecycle/Spared.antt =====
-- What the steps of the platform do to a run whose cancellation is requested while no worker has it.
use market_quorum.Prelude.{
  ℕ, ◌+◌, ◌≡◌, ◌≢◌, refl, sym, ap, ◌∙◌, Bool, List, [], ◌∷◌, Option, none, some, arith, Bool-cases,
  Option-cases, inl, inr, All,
}
use market_quorum.Prelude.Table.{lookup, erase, lookup-insert_ne, lookup-erase}
use market_quorum.Domain.Runs.{RunStatus, same_status}
use market_quorum.Store.{Database, AssessmentRun, WorkerLease}
use market_quorum.Store.Tx.{ok, ok-eq, pure, >>=-eq-ok, or_raise-eq-ok, runtime_error}
use market_quorum.Scheduler.Admission.{Candidate}
use market_quorum.Scheduler.Admission.Frames.{IsMarked}
use market_quorum.Scheduler.Admission.Counts.{IsQueuedRun}
use market_quorum.Assessments.Cancel.Outcome.{IsCancelled}
use market_quorum.Worker.{
  claim, claim_run, claim_next, next_admitted, set_child_identity, heartbeat, heartbeat_idle,
  held_lease, update_worker,
}
use market_quorum.Worker.Claiming.{IsNext, IsClaimed}
use market_quorum.Worker.RunnerEvents.{RunnerEvent}
use market_quorum.Worker.RunnerEvents.Persisted.{IsPersisted}
use market_quorum.Worker.Finish.Returned.{HasEnded}
use market_quorum.Worker.Recovery.{recover_lease, recover_leases, has_process}
use market_quorum.Lifecycle.Stranded.{
  IsStranded, untouched, other_written, leased_differs, status_differs, private_statuses,
  claimable_status, cancel_moves, held_lease-lookup,
}

module _ {run_id : ℕ} {db : Database} (s : IsStranded run_id db) where
  pub admitted_other :
      (db' : Database) (c : Candidate)
      → IsQueuedRun db c
      → IsMarked db c db'
      → IsStranded run_id db'
  admitted_other db' c q m =
      other_written s db' c.run_id m.run'
        (status_differs s c.run_id c.run q.stored (private_statuses s c.run.status q.is_queued))
        m.runs (ap (lookup run_id) m.leases ∙ s.unleased)

  pub claimed_other :
      (db' : Database) (is_locked : ℕ → Bool) (worker_id now j : ℕ) (run' : AssessmentRun)
      → IsNext is_locked db.runs j run'
      → IsClaimed worker_id now j run' db db'
      → IsStranded run_id db'
  claimed_other db' is_locked worker_id now j run' n c =
      let ne = status_differs s j run' n.stored (claimable_status s is_locked j run' n.claimable) in
      other_written s db' j c.run' ne c.runs
        (ap (lookup run_id) c.leases ∙ lookup-insert_ne run_id j _ db.leases ne ∙ s.unleased)

  pub launched :
      (db' : Database) (j pid pgid now : ℕ)
      → set_child_identity j pid pgid now db ≡ ok (tt, db')
      → IsStranded run_id db'
  unfolding set_child_identity
  launched db' j pid pgid now h =
      let (lease, found, k) =
        or_raise-eq-ok (lookup j db.leases)
          (runtime_error "worker lease disappeared before child launch") _ db h in
      untouched s db' (ground arith) (
        ap (λ d. lookup run_id d.leases) (sym (ok-eq k).1)
        ∙ lookup-insert_ne run_id j _ db.leases (leased_differs s j lease found)
        ∙ s.unleased)

  pub ended_other :
      (db' : Database) (j now : ℕ) (lease : WorkerLease)
      → lookup j db.leases ≡ some lease
      → HasEnded j now db db'
      → IsStranded run_id db'
  ended_other db' j now lease held e =
      other_written s db' j e.ended.run' (leased_differs s j lease held) e.ended.runs (
        ap (lookup run_id) e.ended.leases
        ∙ lookup-erase run_id j db.leases
        ∙ ground (arith, s.unleased))

  pub cancelled_any :
      (db' : Database) (j : ℕ) (run run' : AssessmentRun)
      → lookup j db.runs ≡ some run
      → IsCancelled j run run' db db'
      → IsStranded run_id db'
  cancelled_any db' j run run' found c = elim (Bool-cases (same_status run'.status run.status)) [
    | inl same ↦ untouched s db' (c.runs ∙ rw same refl) (ap (lookup run_id) c.leases ∙ s.unleased)
    | inr moved ↦
        other_written s db' j run'
          (status_differs s j run found
            (cancel_moves run.status (ap (λ t. same_status t run.status) (sym c.status) ∙ moved)))
          (c.runs ∙ rw moved refl) (ap (lookup run_id) c.leases ∙ s.unleased)
  ]

  pub reported_other :
      (db' : Database) (j : ℕ) (event : RunnerEvent) (status : RunStatus) (lease : WorkerLease)
      → lookup j db.leases ≡ some lease
      → IsPersisted j event status db db'
      → IsStranded run_id db'
  reported_other db' j event status lease held p =
      elim (Bool-cases (same_status status p.run.status)) [
        | inl same ↦
            untouched s db' (p.moved.runs ∙ rw same refl)
              (ap (lookup run_id) p.moved.leases ∙ s.unleased)
        | inr moved ↦
            other_written s db' j (record p.run { status = status; version = p.run.version + 1 })
              (leased_differs s j lease held) (p.moved.runs ∙ rw moved refl)
              (ap (lookup run_id) p.moved.leases ∙ s.unleased)
      ]

  pub beaten :
      (db' : Database) (worker_id j now : ℕ)
      → heartbeat worker_id j now db ≡ ok (tt, db')
      → IsStranded run_id db'
  unfolding heartbeat
  beaten db' worker_id j now h =
      let workers = update_worker worker_id (λ w. record w { heartbeat_at = now }) db.workers in
      let (lease, found, k) =
        or_raise-eq-ok (held_lease worker_id j (record db { workers = workers }))
          (runtime_error "worker lease heartbeat target is missing") _
          (record db { workers = workers }) h in
      untouched s db' (ap (λ d. d.runs) (sym (ok-eq k).1)) (
        ap (λ d. lookup run_id d.leases) (sym (ok-eq k).1)
        ∙ lookup-insert_ne run_id j _ db.leases
            (leased_differs s j lease (held_lease-lookup worker_id j db found))
        ∙ s.unleased)

  pub idled :
      (db' : Database) (worker_id now : ℕ)
      → heartbeat_idle worker_id now db ≡ ok (tt, db')
      → IsStranded run_id db'
  unfolding heartbeat_idle
  idled db' worker_id now h = untouched s db' (ground arith) (ground (arith, s.unleased))

  erased : (j : ℕ) → lookup run_id (erase j db.leases) ≡ none
  erased j = lookup-erase run_id j db.leases ∙ ground (arith, s.unleased)

  -- A recovery of the lease of another run.
  recovered_other :
      (is_alive : ℕ → Bool) (j : ℕ) (lease : WorkerLease) (r a : ℕ)
      → run_id ≢ j
      → IsStranded run_id (recover_lease is_alive (j, lease) (r, a, db)).2
  unfolding recover_lease
  recovered_other is_alive j lease r a ne = elim (Option-cases (lookup j db.runs)) [
    | inl missing ↦ rw (missing, recover_lease) (untouched s _ refl (erased j))
    | inr (run, found) ↦ elim (Bool-cases (has_process is_alive lease)) [
      | inl alive ↦ rw (found, alive, recover_lease) (other_written s _ j _ ne refl s.unleased)
      | inr dead ↦ rw (found, dead, recover_lease) (other_written s _ j _ ne refl (erased j))
    ]
  ]

pub recover_leases-IsStranded :
    {run_id : ℕ} (is_alive : ℕ → Bool) (ls : List (ℕ × WorkerLease)) (r a : ℕ) (db : Database)
    → All (λ (j, _). run_id ≢ j) ls
    → IsStranded run_id db
    → IsStranded run_id (recover_leases is_alive ls (r, a, db)).2
unfolding recover_leases
recover_leases-IsStranded is_alive [] r a db h s = s
recover_leases-IsStranded is_alive ((j, lease) ∷ ls) r a db h s =
    let (r', a', db') = recover_lease is_alive (j, lease) (r, a, db) in
    recover_leases-IsStranded is_alive ls r' a' db' h.1 (recovered_other s is_alive j lease r a h.0)

pub claim-none :
    (is_locked : ℕ → Bool) (worker_id now : ℕ) (db : Database) {db' : Database}
    → claim is_locked worker_id now db ≡ ok (none, db')
    → db' ≡ db
unfolding claim
claim-none is_locked worker_id now db {db'} h = go (next_admitted is_locked db.runs) h
  where
    go :
        (n : Option (ℕ × AssessmentRun)) → claim_next worker_id now n db ≡ ok (none, db') → db' ≡ db
    go none k = sym (ok-eq k).1
    go (some (run_id, run)) k =
        let (c, db1, e, k) =
          >>=-eq-ok (claim_run worker_id now run_id run) (λ c. pure (some c)) db k in
        ground arith
