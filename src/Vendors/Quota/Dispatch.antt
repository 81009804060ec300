-- ===== src/Vendors/Quota/Dispatch.antt =====
-- One turn of `_dispatch_loop` of GlobalQuotaCoordinator in vendors/alpha_vantage_broker.py.
use market_quorum.Prelude.{
  ℕ, zero, suc, ◌+◌, ◌-◌, ltb, leb, Bool, true, false, not, ◌&&◌, List, [], ◌∷◌, Option, none, some,
  if◌then◌else◌, is_empty,
}
use market_quorum.Vendors.Quota.{
  QuotaLease, Waiter, QuotaState, normal, cooldown, half_open, QuotaSettings, Coordinator,
}

-- `_discard_cancelled_waiters`
abbrev pub discard : List Waiter → List Waiter
discard [] = []
discard (w ∷ ws) = let rest = discard ws in if w.done then rest else w ∷ ws

-- `blocked_until or now`
abbrev pub or_now : ℕ → Option ℕ → ℕ
or_now now none = now
or_now now (some zero) = now
or_now now (some (suc t)) = suc t

abbrev pub thaw_at : ℕ → ℕ → Coordinator → Option ℕ × Coordinator
thaw_at now until c =
    if leb until now
    then (none, record c { state = half_open; blocked_until = none })
    else (some (until - now), c)

-- The delay until a cooldown ends; one that is over ends here.
abbrev pub thaw_in : QuotaState → ℕ → Coordinator → Option ℕ × Coordinator
thaw_in cooldown now c = thaw_at now (or_now now c.blocked_until) c
thaw_in normal now c = (none, c)
thaw_in half_open now c = (none, c)

abbrev pub is_half_open : QuotaState → Bool
is_half_open half_open = true
is_half_open _ = false

-- What a turn gives: a lease for a waiter, or a delay to wait, if any, until something changes.
pub data Dispatched : Type 0 where
  granted : Waiter → QuotaLease → Dispatched
  idle : Option ℕ → Dispatched

abbrev pub granted_to :
    QuotaSettings → ℕ → Waiter → List Waiter → Coordinator → Dispatched × Coordinator
granted_to s now w ws c = (
  granted w (record { probe = is_half_open c.state }),
  record c {
    waiters = ws;
    probe_in_flight = if is_half_open c.state then true else c.probe_in_flight;
    in_flight = c.in_flight + 1;
    next_allowed_at = now + s.interval;
  },
)

-- `heapq.heappop`
abbrev pub pop_waiter : QuotaSettings → ℕ → List Waiter → Coordinator → Dispatched × Coordinator
pop_waiter s now [] c = (idle none, c)
pop_waiter s now (w ∷ ws) c =
    if w.done then (idle none, record c { waiters = ws }) else granted_to s now w ws c

abbrev pub may_dispatch : QuotaSettings → Coordinator → Bool
may_dispatch s c =
    not (is_empty c.waiters)
    && ltb c.in_flight s.max_in_flight
    && not (is_half_open c.state && c.probe_in_flight)

abbrev pub dispatch_thawed : QuotaSettings → ℕ → Option ℕ × Coordinator → Dispatched × Coordinator
dispatch_thawed s now (some delay, c) = (idle (some delay), c)
dispatch_thawed s now (none, c) =
    if may_dispatch s c
    then if ltb now c.next_allowed_at
      then (idle (some (c.next_allowed_at - now)), c)
      else pop_waiter s now c.waiters c
    else (idle none, c)

abbrev pub dispatch_open : QuotaSettings → ℕ → Coordinator → Dispatched × Coordinator
dispatch_open s now c =
    dispatch_thawed s now (thaw_in c.state now (record c { waiters = discard c.waiters }))

-- The loop runs as long as the coordinator is not closed.
unfoldable pub dispatch : QuotaSettings → ℕ → Coordinator → Dispatched × Coordinator
dispatch s now c = if c.closed then (idle none, c) else dispatch_open s now c
