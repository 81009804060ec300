-- ===== src/Vendors/Quota/Leases.antt =====
-- How many leases of a key are out, and how many in a window of time.
use market_quorum.Prelude.{
  ℕ, zero, suc, ◌+◌, ◌-◌, ◌*◌, ◌≤◌, ltb, leb, ◌≡◌, refl, Bool, true, false, ◌&&◌, Bool-cases, List,
  [], ◌∷◌, Option, none, some, inl, inr, arith, if◌then◌else◌, length, count, ltb→lt,
}
use market_quorum.Vendors.Quota.{
  QuotaLease, QuotaSettings, Coordinator, join_queue, LeaseOutcome, success, rate_limit, transient,
  RateScope, acquire, release,
}
use market_quorum.Vendors.Quota.Dispatch.{Dispatched, granted, idle, dispatch}
use market_quorum.Vendors.Quota.Turns.{Moved, dispatch-Moved}
use market_quorum.Vendors.Quota.Run.{
  Broker, new_broker, Act, asks, cancels, waits, dispatches, releases, closes, act, asked,
  dispatched, given_back, onto, pick, run,
}

-- Each grant stands an interval before the one above it, and the first before `limit`.
abbrev pub Spaced : ℕ → ℕ → List ℕ → Type 0
Spaced interval limit [] = Unit
Spaced interval limit (t ∷ ts) = (t + interval ≤ limit) × Spaced interval t ts

pub record IsSound (s : QuotaSettings) (x : Broker) : Type 0 where
  pub counted : x.coordinator.in_flight ≡ length x.leases
  pub within : x.coordinator.in_flight ≤ s.max_in_flight
  pub spaced : Spaced s.interval x.coordinator.next_allowed_at x.grants

Spaced-later :
    (interval limit now : ℕ) (ts : List ℕ)
    → limit ≤ now
    → Spaced interval limit ts
    → Spaced interval now ts
Spaced-later interval limit now [] h p = tt
Spaced-later interval limit now (t ∷ ts) h p = (omega (arith, p.0), p.1)

length-pick :
    (i : ℕ) (ls : List QuotaLease) {l : QuotaLease} {rest : List QuotaLease}
    → pick i ls ≡ some (l, rest)
    → length ls ≡ suc (length rest)
length-pick i [] h = cc
length-pick zero (k ∷ ls) h = ground arith
length-pick (suc i) (k ∷ ls) {l} {rest} h = go (pick i ls) h (λ m r e. length-pick i ls e)
  where
    go :
        (o : Option (QuotaLease × List QuotaLease))
        → onto k o ≡ some (l, rest)
        → ((m : QuotaLease) (r : List QuotaLease) → o ≡ some (m, r) → length ls ≡ suc (length r))
        → suc (length ls) ≡ suc (length rest)
    go none p ih = cc
    go (some (m, r)) p ih = ground (arith, ih m r refl)

release-same :
    (s : QuotaSettings) (l : QuotaLease) (o : LeaseOutcome) (retry_after : Option ℕ)
    (scope : RateScope) (now jitter : ℕ) (c : Coordinator)
    → ((release s l o retry_after scope now jitter c).in_flight ≡ c.in_flight - 1)
      × ((release s l o retry_after scope now jitter c).next_allowed_at ≡ c.next_allowed_at)
unfolding release
release-same s l rate_limit retry_after scope now jitter c = (refl, refl)
release-same s l success retry_after scope now jitter c = ground arith
release-same s l transient retry_after scope now jitter c = ground arith

module _ (s : QuotaSettings) where
  dispatched-IsSound :
      (x : Broker) (r : Dispatched × Coordinator)
      → Moved s x.now x.coordinator r
      → IsSound s x
      → IsSound s (dispatched r x)
  dispatched-IsSound x (idle delay, c) m h = record {
    counted = ground (arith, h.counted);
    within = ground (arith, h.within);
    spaced = rw m.1 h.spaced;
  }
  dispatched-IsSound x (granted w lease, c) m h = record {
    counted = ground (arith, h.counted);
    within = ground (arith, h.within);
    spaced = (
      ground arith,
      Spaced-later s.interval x.coordinator.next_allowed_at x.now x.grants m.1 h.spaced,
    );
  }

  given_back-IsSound :
      (o : LeaseOutcome) (retry_after : Option ℕ) (scope : RateScope) (jitter i : ℕ) (x : Broker)
      (p : Option (QuotaLease × List QuotaLease))
      → pick i x.leases ≡ p
      → IsSound s x
      → IsSound s (given_back s o retry_after scope jitter p x)
  given_back-IsSound o retry_after scope jitter i x none e h = h
  given_back-IsSound o retry_after scope jitter i x (some (l, rest)) e h =
      let (flight, allowed) = release-same s l o retry_after scope x.now jitter x.coordinator in
      record {
        counted = omega (arith, flight, h.counted, length-pick i x.leases e);
        within = omega (arith, flight, h.within);
        spaced = rw allowed h.spaced;
      }

  asked-IsSound :
      (priority : ℕ) (x : Broker)
      → IsSound s x
      → IsSound s (asked (acquire priority x.now x.coordinator) x)
  unfolding acquire
  asked-IsSound priority x h = at x.coordinator.closed
    where
      grown : Coordinator
      grown = join_queue priority x.now x.coordinator

      at : (b : Bool) → IsSound s (asked (if b then none else some grown) x)
      at true = h
      at false = record { counted = h.counted; within = h.within; spaced = h.spaced }

  act-IsSound : (a : Act) (x : Broker) → IsSound s x → IsSound s (act s a x)
  unfolding act
  act-IsSound (asks priority) x h = asked-IsSound priority x h
  act-IsSound (cancels sequence) x h = record {
    counted = h.counted;
    within = h.within;
    spaced = h.spaced;
  }
  act-IsSound (waits delay) x h = record {
    counted = h.counted;
    within = h.within;
    spaced = h.spaced;
  }
  act-IsSound dispatches x h =
      dispatched-IsSound x (dispatch s x.now x.coordinator) (dispatch-Moved s x.now x.coordinator) h
  act-IsSound (releases i o retry_after scope jitter) x h =
      given_back-IsSound o retry_after scope jitter i x (pick i x.leases) refl h
  act-IsSound closes x h = record { counted = h.counted; within = h.within; spaced = h.spaced }

  run-IsSound : (acts : List Act) (x : Broker) → IsSound s x → IsSound s (run s acts x)
  run-IsSound [] x h = h
  run-IsSound (a ∷ rest) x h = run-IsSound rest (act s a x) (act-IsSound a x h)

  -- After any calls of the coordinator's operations, turns of its dispatcher and time that
  -- passes, from a new coordinator on, `_in_flight` is the number of leases that callers hold,
  -- and that is at most `max_in_flight`.
  pub run-leases :
      (acts : List Act)
      → ((run s acts new_broker).coordinator.in_flight ≡ length (run s acts new_broker).leases)
        × (length (run s acts new_broker).leases ≤ s.max_in_flight)
  run-leases acts =
      let h =
        run-IsSound acts new_broker
          (record { counted = refl; within = omega arith; spaced = tt }) in
      (h.counted, omega (arith, h.counted, h.within))

abbrev pub is_within : ℕ → ℕ → ℕ → Bool
is_within from until t = ltb from t && leb t until

-- How many leases were granted after `from` and not after `until`.
pub grants_within : ℕ → ℕ → List ℕ → ℕ
grants_within from until = count (is_within from until)

Spaced-above :
    (interval limit from until : ℕ) (ts : List ℕ)
    → Spaced interval limit ts
    → grants_within from until ts * interval ≤ limit - from
unfolding grants_within
Spaced-above interval limit from until [] p = omega arith
Spaced-above interval limit from until (t ∷ ts) p = elim (Bool-cases (is_within from until t)) [
  | inl inside ↦ rw inside (grind (arith, Spaced-above interval t from until ts p.1, ltb→lt from t))
  | inr outside ↦ rw outside (grind (arith, Spaced-above interval t from until ts p.1))
]

Spaced-window :
    (interval limit from until : ℕ) (ts : List ℕ)
    → Spaced interval limit ts
    → grants_within from until ts * interval ≤ until - from + interval
unfolding grants_within
Spaced-window interval limit from until [] p = omega arith
Spaced-window interval limit from until (t ∷ ts) p = elim (Bool-cases (ltb until t)) [
  | inl late ↦
      let outside : is_within from until t ≡ false = ground arith in
      rw outside (omega (arith, Spaced-window interval t from until ts p.1))
  | inr in_time ↦
      let above = Spaced-above interval (t + interval) from until (t ∷ ts) (omega arith, p.1) in
      let before : t ≤ until = ground arith in omega (arith, above)
]

-- After any calls of the coordinator's operations, turns of its dispatcher and time that passes,
-- from a new coordinator on, the number of leases granted in a window of time, times the interval
-- between requests, is at most the window's length and one interval.
pub run-spaced :
    (s : QuotaSettings) (acts : List Act) (from until : ℕ)
    → grants_within from until (run s acts new_broker).grants * s.interval
      ≤ until - from + s.interval
run-spaced s acts from until =
    let h =
      run-IsSound s acts new_broker
        (record { counted = refl; within = omega arith; spaced = tt }) in
    Spaced-window s.interval _ from until _ h.spaced
