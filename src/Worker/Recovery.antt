-- ===== src/Worker/Recovery.antt =====
-- `recover_stale_leases` of worker/repository.py. `is_alive` tells whether a process exists.
pub mod Reclaimed
use market_quorum.Prelude.{
  ℕ, suc, ◌+◌, ltb, Bool, true, false, not, ◌&&◌, ◌||◌, List, [], ◌∷◌, ◌++◌, Option, none, some,
  String, if◌then◌else◌, keep,
}
use market_quorum.Prelude.Table.{Table, lookup, insert, erase}
use market_quorum.Prelude.Json.{bool, end, field}
use market_quorum.Domain.Runs.{RunStatus, admitted, needs_attention}
use market_quorum.Store.{Database, AssessmentRun, WorkerLease}
use market_quorum.Store.Events.{numbered_event}

-- The process of the runner whose lease this is still exists.
abbrev pub has_process : (ℕ → Bool) → WorkerLease → Bool
has_process is_alive lease = elim lease.child_pid [ none ↦ false | some pid ↦ is_alive pid ]

abbrev recovery_event : ℕ → Bool → Database → Database
recovery_event run_id reclaimed db = record db {
  events =
      db.events
      ++ numbered_event run_id ("assessment" ∷ "recovery" ∷ [])
          (field "reclaimed" (bool reclaimed) end) db.events
        ∷ [];
}

-- One round of the loop, with the counts of reclaimed runs and of runs that need attention.
unfoldable pub recover_lease : (ℕ → Bool) → ℕ × WorkerLease → ℕ × ℕ × Database → ℕ × ℕ × Database
recover_lease is_alive (run_id, lease) (reclaimed, attention, db) = elim (lookup run_id db.runs) [
  | none ↦ (reclaimed, attention, record db { leases = erase run_id db.leases })
  | some run ↦
      (if has_process is_alive lease
        then (
          reclaimed,
          attention + 1,
          recovery_event run_id false (record db {
            runs =
                insert run_id
                  (record run {
                    status = needs_attention;
                    error_code = some "stale_lease_process_alive";
                    version = run.version + 1;
                  })
                  db.runs;
          }),
        )
        else (
          reclaimed + 1,
          attention,
          recovery_event run_id true (record db {
            runs =
                insert run_id
                  (record run {
                    status = admitted;
                    attempt = run.attempt + 1;
                    version = run.version + 1;
                  })
                  db.runs;
            leases = erase run_id db.leases;
          }),
        ))
]

unfoldable pub recover_leases :
    (ℕ → Bool) → List (ℕ × WorkerLease) → ℕ × ℕ × Database → ℕ × ℕ × Database
unfolding recover_lease
recover_leases is_alive [] acc = acc
recover_leases is_alive (l ∷ ls) acc = recover_leases is_alive ls (recover_lease is_alive l acc)

abbrev pub is_stale : (ℕ → Bool) → ℕ → ℕ × WorkerLease → Bool
is_stale is_locked now (run_id, lease) = ltb lease.lease_expires_at now && not (is_locked run_id)

-- The leases that have expired and that nobody has locked, in the table's order.
abbrev pub stale_leases : (ℕ → Bool) → ℕ → Table WorkerLease → List (ℕ × WorkerLease)
stale_leases is_locked now = keep (is_stale is_locked now)

unfoldable pub recover_stale_leases : (ℕ → Bool) → (ℕ → Bool) → ℕ → Database → ℕ × ℕ × Database
unfolding recover_leases
recover_stale_leases is_locked is_alive now db =
    recover_leases is_alive (stale_leases is_locked now db.leases) (0, 0, db)
