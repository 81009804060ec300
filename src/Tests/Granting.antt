-- ===== src/Tests/Granting.antt =====
-- A key with two requests at a time, one every ten microseconds.
use market_quorum.Prelude.{
  ◌+◌, ◌-◌, ◌*◌, ◌≤◌, ◌≡◌, refl, true, false, List, [], ◌∷◌, ◌++◌, none, some, arith, length,
}
use market_quorum.Vendors.Quota.{
  Waiter, QuotaSettings, Coordinator, new_coordinator, cooldown, success, rate_limit, minute, daily,
}
use market_quorum.Vendors.Quota.Dispatch.{granted, dispatch}
use market_quorum.Vendors.Quota.Run.{
  Broker, new_broker, Act, asks, cancels, waits, dispatches, releases, act, run,
}
use market_quorum.Vendors.Quota.Leases.{run-leases, grants_within, run-spaced}
use market_quorum.Vendors.Quota.Order.{IsServedFirst, run-IsServedFirst}
use market_quorum.Vendors.Quota.Cooling.{IsCooling, run-IsCooling}

abbrev settings : QuotaSettings
settings = record { max_in_flight = 2; minute_cooldown = 100; daily_cooldown = 5000; interval = 10 }

-- A third caller comes first by its priority, and the second gives up.
abbrev two_leases : Broker
two_leases = record new_broker {
  coordinator = record new_coordinator { in_flight = 2 };
  leases = record { probe = false } ∷ record { probe = false } ∷ [];
  now = 10;
}

abbrev acts : List Act
acts = asks 20 ∷ asks 20 ∷ dispatches ∷ dispatches ∷ waits 10 ∷ asks 50 ∷ asks 0 ∷ cancels 2 ∷ []

two_grants :
    (run settings (acts ++ dispatches ∷ waits 10 ∷ dispatches ∷ []) new_broker).grants ≡ 10 ∷ 0 ∷ []
unfolding act
two_grants = refl

run-leases_example :
    ((run settings acts new_broker).coordinator.in_flight
      ≡ length (run settings acts new_broker).leases)
    × (length (run settings acts new_broker).leases ≤ 2)
run-leases_example = run-leases settings acts

run-spaced_example : grants_within 5 25 (run settings acts new_broker).grants * 10 ≤ 25 - 5 + 10
run-spaced_example = run-spaced settings acts 5 25

abbrev urgent : Waiter
urgent = record { priority = 0; sequence = 4; enqueued_at = 10; done = false }

abbrev served : Coordinator
served = record new_coordinator {
  waiters =
      record { priority = 20; sequence = 2; enqueued_at = 0; done = true }
      ∷ record { priority = 50; sequence = 3; enqueued_at = 10; done = false }
      ∷ [];
  sequence = 4;
  in_flight = 2;
  next_allowed_at = 20;
}

urgent_granted :
    dispatch settings 10 (run settings acts new_broker).coordinator
    ≡ (granted urgent (record { probe = false }), served)
unfolding act dispatch
urgent_granted = refl

run-IsServedFirst_example : IsServedFirst urgent (run settings acts new_broker).coordinator served
run-IsServedFirst_example = run-IsServedFirst settings acts 10 urgent_granted

-- A rate limit at 0, with a lease still out.
abbrev cooling : Broker
cooling = record {
  coordinator = record served {
    state = cooldown;
    blocked_until = some 113;
    in_flight = 1;
    consecutive_rate_limits = 1;
  };
  leases = record { probe = false } ∷ [];
  now = 10;
  grants = 10 ∷ 0 ∷ [];
}

cooling_reached :
    run settings (acts ++ dispatches ∷ releases 0 rate_limit none minute 3 ∷ []) new_broker
    ≡ cooling
unfolding act
cooling_reached = refl

abbrev cooling_acts : List Act
cooling_acts = waits 50 ∷ dispatches ∷ releases 0 success none minute 0 ∷ waits 42 ∷ dispatches ∷ []

run-IsCooling_example :
    IsCooling 113 (run settings cooling_acts cooling)
    × ((run settings cooling_acts cooling).grants ≡ cooling.grants)
unfolding act
run-IsCooling_example =
    run-IsCooling settings 113 cooling_acts cooling
      (record { cooling = refl; blocked = refl; no_probe = (refl, tt) })
      (refl, (refl, (refl, (refl, (refl, tt))))) (omega arith)

-- A daily limit, and then a limit of a minute by another lease: the shorter cooldown replaces the
-- longer one.
shortened :
    (run settings
      (releases 0 rate_limit none daily 0 ∷ releases 0 rate_limit none minute 0 ∷ [])
      two_leases).coordinator.blocked_until
    ≡ some 210
unfolding act
shortened = refl
