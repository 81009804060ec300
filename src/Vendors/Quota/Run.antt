-- ===== src/Vendors/Quota/Run.antt =====
-- A coordinator of vendors/alpha_vantage_broker.py among its callers: any sequence of their calls, of
-- turns of the dispatcher and of the time that passes.
use market_quorum.Prelude.{
  ℕ, zero, suc, ◌+◌, true, ◌==◌, List, [], ◌∷◌, Option, none, some, if◌then◌else◌,
}
use market_quorum.Vendors.Quota.{
  QuotaLease, Waiter, QuotaSettings, Coordinator, new_coordinator, acquire, release, close,
  LeaseOutcome, RateScope,
}
use market_quorum.Vendors.Quota.Dispatch.{Dispatched, granted, idle, dispatch}

-- The coordinator, the leases that callers hold, the time, and the times of the grants, the last first.
pub record Broker : Type 0 where
  pub coordinator : Coordinator
  pub leases : List QuotaLease
  pub now : ℕ
  pub grants : List ℕ

abbrev pub new_broker : Broker
new_broker = record { coordinator = new_coordinator; leases = []; now = 0; grants = [] }

pub data Act : Type 0 where
  asks : (priority : ℕ) → Act
  cancels : (sequence : ℕ) → Act
  waits : (delay : ℕ) → Act
  dispatches : Act
  -- the holder of the lease at the index
  releases :
      (index : ℕ) (outcome : LeaseOutcome) (retry_after : Option ℕ) (scope : RateScope) (jitter : ℕ)
      → Act
  closes : Act

abbrev pub cancelled : ℕ → Waiter → Waiter
cancelled sequence w = if w.sequence == sequence then record w { done = true } else w

abbrev pub cancel_waiters : ℕ → List Waiter → List Waiter
cancel_waiters sequence [] = []
cancel_waiters sequence (w ∷ ws) = cancelled sequence w ∷ cancel_waiters sequence ws

-- An element by its index, and the others.
abbrev pub onto :
    QuotaLease → Option (QuotaLease × List QuotaLease) → Option (QuotaLease × List QuotaLease)
onto l none = none
onto l (some (k, ls)) = some (k, l ∷ ls)

abbrev pub pick : ℕ → List QuotaLease → Option (QuotaLease × List QuotaLease)
pick i [] = none
pick zero (l ∷ ls) = some (l, ls)
pick (suc i) (l ∷ ls) = onto l (pick i ls)

abbrev pub asked : Option Coordinator → Broker → Broker
asked none x = x
asked (some c) x = record x { coordinator = c }

abbrev pub dispatched : Dispatched × Coordinator → Broker → Broker
dispatched (idle delay, c) x = record x { coordinator = c }
dispatched (granted w lease, c) x = record x {
  coordinator = c;
  leases = lease ∷ x.leases;
  grants = x.now ∷ x.grants;
}

abbrev pub given_back :
    QuotaSettings
    → LeaseOutcome
    → Option ℕ
    → RateScope
    → ℕ
    → Option (QuotaLease × List QuotaLease)
    → Broker
    → Broker
given_back s outcome retry_after scope jitter none x = x
given_back s outcome retry_after scope jitter (some (lease, rest)) x = record x {
  coordinator = release s lease outcome retry_after scope x.now jitter x.coordinator;
  leases = rest;
}

unfoldable pub act : QuotaSettings → Act → Broker → Broker
unfolding acquire release dispatch close
act s (asks priority) x = asked (acquire priority x.now x.coordinator) x
act s (cancels sequence) x = record x {
  coordinator = record x.coordinator { waiters = cancel_waiters sequence x.coordinator.waiters };
}
act s (waits delay) x = record x { now = x.now + delay }
act s dispatches x = dispatched (dispatch s x.now x.coordinator) x
act s (releases index outcome retry_after scope jitter) x =
    given_back s outcome retry_after scope jitter (pick index x.leases) x
act s closes x = record x { coordinator = close x.coordinator }

abbrev pub run : QuotaSettings → List Act → Broker → Broker
run s [] x = x
run s (a ∷ rest) x = run s rest (act s a x)
