-- ===== src/DataReadiness.antt =====
-- platform/src/tradingng_platform/data_readiness: the requirements that a run waits for. A worker claims
-- one that is due, asks the provider, and settles the claim by what it hears.
pub mod Provider
pub mod Settle
pub mod Reconcile
pub mod Claims
pub mod Claiming
pub mod Spent
pub mod Queueing
use market_quorum.Prelude.{
  ℕ, ◌+◌, ltb, leb, ◌==◌, Bool, true, false, not, ◌&&◌, ◌||◌, List, [], ◌∷◌, Option, none, some,
  String, str_eq, if◌then◌else◌, keep, first,
}
use market_quorum.Prelude.Table.{Table, lookup, insert}
use market_quorum.Prelude.Sorted.{key_lt, order_by}
use market_quorum.Domain.Runs.{RunStatus, waiting_for_data}
use market_quorum.Store.{
  Database, AssessmentRun, AssessmentDataRequirement, RequirementStatus, waiting,
}
use market_quorum.Store.Tx.{Tx, pure, gets, modify, ◌>>=◌, ◌>>◌}
use market_quorum.Scheduler.Circuits.{seconds}
use market_quorum.Worker.{null_first}

pub record DataRequirementClaim : Type 0 where
  pub requirement_id : ℕ
  pub run_id : ℕ
  pub provider_request_id : String
  pub version : ℕ
  pub lease_owner : String

abbrev pub is_waiting_status : RunStatus → Bool
is_waiting_status waiting_for_data = true
is_waiting_status _ = false

abbrev pub is_waiting_run : Option AssessmentRun → Bool
is_waiting_run none = false
is_waiting_run (some run) = is_waiting_status run.status

abbrev pub is_waiting_requirement : RequirementStatus → Bool
is_waiting_requirement waiting = true
is_waiting_requirement _ = false

-- The time is missing, or has come.
abbrev pub has_come : ℕ → Option ℕ → Bool
has_come now none = true
has_come now (some t) = leb t now

-- The condition of the query, and that nobody has locked the row.
abbrev pub is_due : (ℕ → Bool) → ℕ → Table AssessmentRun → ℕ × AssessmentDataRequirement → Bool
is_due is_locked now runs (id, r) =
    is_waiting_requirement r.status
    && is_waiting_run (lookup r.run_id runs)
    && has_come now r.next_poll_at
    && has_come now r.lease_expires_at
    && not (is_locked id)

abbrev pub due_lt : ℕ × AssessmentDataRequirement → ℕ × AssessmentDataRequirement → Bool
due_lt (i, r) (j, s) =
    ltb (null_first r.next_poll_at) (null_first s.next_poll_at)
    || (null_first r.next_poll_at == null_first s.next_poll_at
        && key_lt (r.created_at, i) (s.created_at, j))

unfoldable pub next_due : (ℕ → Bool) → ℕ → Database → Option (ℕ × AssessmentDataRequirement)
unfolding order_by
next_due is_locked now db =
    first (order_by due_lt (keep (is_due is_locked now db.runs) db.requirements))

abbrev pub save_requirement : ℕ → AssessmentDataRequirement → Tx (Unit {0})
save_requirement id r = modify (λ db. record db { requirements = insert id r db.requirements })

abbrev pub leased_to : String → ℕ → AssessmentDataRequirement → AssessmentDataRequirement
leased_to worker until r = record r {
  lease_owner = some worker;
  lease_expires_at = some until;
  version = r.version + 1;
}

abbrev pub claim_of : ℕ → String → AssessmentDataRequirement → DataRequirementClaim
claim_of id worker r = record {
  requirement_id = id;
  run_id = r.run_id;
  provider_request_id = r.provider_request_id;
  version = r.version + 1;
  lease_owner = worker;
}

abbrev pub claim_requirement :
    String → ℕ → Option (ℕ × AssessmentDataRequirement) → Tx (Option DataRequirementClaim)
claim_requirement worker until none = pure none
claim_requirement worker until (some (id, r)) = do
  save_requirement id (leased_to worker until r)
  pure (some (claim_of id worker r))

unfoldable pub claim_due : (ℕ → Bool) → String → ℕ → ℕ → Tx (Option DataRequirementClaim)
unfolding next_due
claim_due is_locked worker lease_seconds now db =
    claim_requirement worker (now + seconds lease_seconds) (next_due is_locked now db) db

abbrev pub owned_by : String → Option String → Bool
owned_by worker none = false
owned_by worker (some owner) = str_eq owner worker

abbrev pub still_holds : DataRequirementClaim → AssessmentDataRequirement → Bool
still_holds claim r = r.version == claim.version && owned_by claim.lease_owner r.lease_owner

abbrev pub held_by :
    DataRequirementClaim → Option AssessmentDataRequirement → Option AssessmentDataRequirement
held_by claim none = none
held_by claim (some r) = if still_holds claim r then some r else none

-- `_locked`: the requirement, unless it has changed since it was claimed.
unfoldable pub locked : DataRequirementClaim → Database → Option AssessmentDataRequirement
locked claim db = held_by claim (lookup claim.requirement_id db.requirements)
