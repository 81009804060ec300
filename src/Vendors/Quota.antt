-- ===== src/Vendors/Quota.antt =====
-- `GlobalQuotaCoordinator` of vendors/alpha_vantage_broker.py: who may send a request with an API key,
-- and when. Times and delays count microseconds.
pub mod Dispatch
pub mod Run
pub mod Turns
pub mod Leases
pub mod Order
pub mod Cooling
use mathlib.Core.Option
use market_quorum.Prelude.{
  ℕ, zero, suc, ◌+◌, ◌-◌, ◌*◌, ◌^◌, max, min, ltb, leb, ◌==◌, Bool, true, false, not, ◌&&◌, List,
  [], ◌∷◌, count, not, Option, none, some, if◌then◌else◌, is_empty,
}
use market_quorum.Prelude.Sorted.{by_key, insert_row}
use market_quorum.Scheduler.Circuits.{seconds}

pub record QuotaLease : Type 0 where
  pub probe : Bool

-- `done` is that of its future: the caller has given up.
pub record Waiter : Type 0 where
  pub priority : ℕ
  pub sequence : ℕ
  pub enqueued_at : ℕ
  pub done : Bool

pub data QuotaState : Type 0 where
  normal cooldown half_open : QuotaState

-- `interval` is a minute divided by the effective number of requests.
pub record QuotaSettings : Type 0 where
  pub max_in_flight : ℕ
  pub minute_cooldown : ℕ
  pub daily_cooldown : ℕ
  pub interval : ℕ

-- The heap of the waiters is the list of its elements in their order.
pub record Coordinator : Type 0 where
  pub waiters : List Waiter
  pub sequence : ℕ
  pub in_flight : ℕ
  pub next_allowed_at : ℕ
  pub state : QuotaState
  pub blocked_until : Option ℕ
  pub probe_in_flight : Bool
  pub consecutive_rate_limits : ℕ
  pub closed : Bool

abbrev pub new_coordinator : Coordinator
new_coordinator = record {
  waiters = [];
  sequence = 0;
  in_flight = 0;
  next_allowed_at = 0;
  state = normal;
  blocked_until = none;
  probe_in_flight = false;
  consecutive_rate_limits = 0;
  closed = false;
}

abbrev pub waiter_key : Waiter → ℕ × ℕ
waiter_key w = (w.priority, w.sequence)

-- The caller waits in the queue.
abbrev pub join_queue : ℕ → ℕ → Coordinator → Coordinator
join_queue priority now c = record c {
  sequence = c.sequence + 1;
  waiters =
      insert_row (by_key waiter_key)
        (record { priority = priority; sequence = c.sequence + 1; enqueued_at = now; done = false })
        c.waiters;
}

-- Raises where the broker is stopping.
unfoldable pub acquire : ℕ → ℕ → Coordinator → Option Coordinator
unfolding insert_row
acquire priority now c = if c.closed then none else some (join_queue priority now c)

unfoldable pub close : Coordinator → Coordinator
close c = record c { closed = true; waiters = [] }

pub data LeaseOutcome : Type 0 where
  success rate_limit transient : LeaseOutcome

pub data RateScope : Type 0 where
  minute daily : RateScope

-- The delay that the scope asks for, at the `n + 1`-th rate limit in a row.
abbrev pub base_delay : QuotaSettings → RateScope → ℕ → ℕ
base_delay s daily n = s.daily_cooldown
base_delay s minute n = s.minute_cooldown * 2 ^ n

-- `retry_after or 0`
abbrev pub or_zero : Option ℕ → ℕ
or_zero none = 0
or_zero (some t) = t

-- `jitter` is what the random function gives, where it is not negative.
abbrev pub cool_down : QuotaSettings → Option ℕ → RateScope → ℕ → ℕ → Coordinator → Coordinator
cool_down s retry_after scope now jitter c = record c {
  consecutive_rate_limits = c.consecutive_rate_limits + 1;
  state = cooldown;
  blocked_until =
      some
        (now + (max (base_delay s scope c.consecutive_rate_limits) (or_zero retry_after) + jitter));
  probe_in_flight = false;
}

abbrev pub settled :
    QuotaSettings
    → QuotaLease
    → LeaseOutcome
    → Option ℕ
    → RateScope
    → ℕ
    → ℕ
    → Coordinator
    → Coordinator
settled s lease rate_limit retry_after scope now jitter c =
    cool_down s retry_after scope now jitter c
settled s lease success retry_after scope now jitter c =
    if lease.probe
    then record c {
      state = normal;
      blocked_until = none;
      probe_in_flight = false;
      consecutive_rate_limits = 0;
    }
    else c
settled s lease transient retry_after scope now jitter c =
    if lease.probe
    then record c {
      state = cooldown;
      blocked_until = some (now + min s.minute_cooldown (seconds 30));
      probe_in_flight = false;
    }
    else c

unfoldable pub release :
    QuotaSettings
    → QuotaLease
    → LeaseOutcome
    → Option ℕ
    → RateScope
    → ℕ
    → ℕ
    → Coordinator
    → Coordinator
release s lease outcome retry_after scope now jitter c =
    settled s lease outcome retry_after scope now jitter (record c { in_flight = c.in_flight - 1 })

abbrev pub queued : Coordinator → ℕ
queued c = count (λ w. not w.done) c.waiters

abbrev sooner : ℕ → Option ℕ → Option ℕ
sooner t none = some t
sooner t (some u) = some (min t u)

abbrev pub earliest : List Waiter → Option ℕ
earliest [] = none
earliest (w ∷ ws) = let rest = earliest ws in if w.done then rest else sooner w.enqueued_at rest

-- How long the first of those who wait has waited.
abbrev pub oldest_queued_seconds : ℕ → Coordinator → Option ℕ
oldest_queued_seconds now c = Option.map (λ t. now - t) (earliest c.waiters)

abbrev pub blocked_seconds : ℕ → Coordinator → Option ℕ
blocked_seconds now c = Option.map (λ t. t - now) c.blocked_until
