-- ===== src/Vendors/Quota/Cooling.antt =====
-- How long a rate limit holds in vendors/alpha_vantage_broker.py.
use market_quorum.Prelude.{
  ℕ, zero, suc, ◌-◌, ◌≤◌, ◌<◌, ap, ◌∙◌, leb, ◌≡◌, refl, sym, Bool, true, false, List, [], ◌∷◌,
  Option, none, some, arith, if◌then◌else◌, All,
}
use mathlib.Core.Path.{subst}
use market_quorum.Vendors.Quota.{
  QuotaLease, cooldown, QuotaSettings, Coordinator, join_queue, acquire, release, close,
  LeaseOutcome, success, rate_limit, transient, RateScope,
}
use market_quorum.Vendors.Quota.Dispatch.{
  Dispatched, granted, idle, discard, or_now, thaw_in, thaw_at, dispatch_thawed, dispatch_open,
  dispatch,
}
use market_quorum.Vendors.Quota.Run.{
  Broker, Act, asks, cancels, waits, dispatches, releases, closes, act, asked, dispatched,
  given_back, pick, onto, run,
}

-- The key cools down until `until`, and no probe is out.
pub record IsCooling (until : ℕ) (x : Broker) : Type 0 where
  pub cooling : x.coordinator.state ≡ cooldown
  pub blocked : x.coordinator.blocked_until ≡ some until
  pub no_probe : All (λ l. l.probe ≡ false) x.leases

abbrev pub reports_limit : Act → Bool
reports_limit (releases i rate_limit retry_after scope jitter) = true
reports_limit _ = false

-- No lease is granted, and the cooldown stays.
abbrev Idles : ℕ → Coordinator → Dispatched × Coordinator → Type 0
Idles until c (granted w lease, c') = ⊥
Idles until c (idle delay, c') = (c'.state ≡ cooldown) × (c'.blocked_until ≡ some until)

or_now-later : (now until : ℕ) → now < until → or_now now (some until) ≡ until
or_now-later now zero h = absurd (omega arith)
or_now-later now (suc t) h = refl

module _ (s : QuotaSettings) (until : ℕ) where
  thaw_at-early : (now t : ℕ) (c : Coordinator) → now < t → thaw_at now t c ≡ (some (t - now), c)
  thaw_at-early now t c h = let early : leb t now ≡ false = ground arith in rw early refl

  dispatch_open-Idles :
      (now : ℕ) (c : Coordinator)
      → c.state ≡ cooldown
      → c.blocked_until ≡ some until
      → now < until
      → Idles until c (dispatch_open s now c)
  dispatch_open-Idles now c cooling blocked h =
      let b = record c { waiters = discard c.waiters } in
      let stays : thaw_in c.state now b ≡ (some (until - now), b) =
        ap (λ q. thaw_in q now b) cooling
        ∙ ap (λ o. thaw_at now (or_now now o) b) blocked
        ∙ ap (λ t. thaw_at now t b) (or_now-later now until h)
        ∙ thaw_at-early now until b h in
      subst (λ t. Idles until c (dispatch_thawed s now t)) (sym stays) (cooling, blocked)

  dispatch-Idles :
      (now : ℕ) (c : Coordinator)
      → c.state ≡ cooldown
      → c.blocked_until ≡ some until
      → now < until
      → Idles until c (dispatch s now c)
  unfolding dispatch
  dispatch-Idles now c cooling blocked h =
      elim c.closed as (λ b. Idles until c (if b then (idle none, c) else dispatch_open s now c)) [
        | true ↦ (cooling, blocked)
        | false ↦ dispatch_open-Idles now c cooling blocked h
      ]

  -- What an act leaves of a cooldown, and the grants.
  abbrev Stays : Broker → Broker → Type 0
  Stays x y = IsCooling until y × (y.grants ≡ x.grants)

  dispatched-Stays :
      (x : Broker) (r : Dispatched × Coordinator)
      → IsCooling until x
      → Idles until x.coordinator r
      → Stays x (dispatched r x)
  dispatched-Stays x (granted w lease, c) h i = absurd i
  dispatched-Stays x (idle delay, c) h i =
      (record { cooling = i.0; blocked = i.1; no_probe = h.no_probe }, refl)

  pick-All :
      (i : ℕ) (ls : List QuotaLease) {l : QuotaLease} {rest : List QuotaLease}
      → All (λ k. k.probe ≡ false) ls
      → pick i ls ≡ some (l, rest)
      → (l.probe ≡ false) × All (λ k. k.probe ≡ false) rest
  pick-All i [] h e = cc
  pick-All zero (k ∷ ls) {l} {rest} h e =
      let same : k ≡ l = ground arith in
      let tail : ls ≡ rest = ground arith in
      (subst (λ m. m.probe ≡ false) same h.0, subst (All (λ m. m.probe ≡ false)) tail h.1)
  pick-All (suc i) (k ∷ ls) {l} {rest} h e =
      go (pick i ls) e (λ m r q. pick-All i ls {l = m} {rest = r} h.1 q)
    where
      go :
          (o : Option (QuotaLease × List QuotaLease))
          → onto k o ≡ some (l, rest)
          → ((m : QuotaLease) (r : List QuotaLease)
              → o ≡ some (m, r)
              → (m.probe ≡ false) × All (λ n. n.probe ≡ false) r)
          → (l.probe ≡ false) × All (λ n. n.probe ≡ false) rest
      go none p ih = cc
      go (some (m, r)) p ih =
          let (quiet, others) = ih m r refl in
          let same : m ≡ l = ground arith in
          let tail : k ∷ r ≡ rest = ground arith in
          (
            subst (λ n. n.probe ≡ false) same quiet,
            subst (All (λ n. n.probe ≡ false)) tail (h.0, others),
          )

  -- A lease that is no probe, whose request was not refused, changes only the count.
  release-Stays :
      (l : QuotaLease) (o : LeaseOutcome) (retry_after : Option ℕ) (scope : RateScope) (jitter : ℕ)
      (x : Broker) (rest : List QuotaLease) (i : ℕ)
      → l.probe ≡ false
      → All (λ k. k.probe ≡ false) rest
      → reports_limit (releases i o retry_after scope jitter) ≡ false
      → IsCooling until x
      → Stays x (given_back s o retry_after scope jitter (some (l, rest)) x)
  unfolding release
  release-Stays l rate_limit retry_after scope jitter x rest i p ps q h = cc
  release-Stays l success retry_after scope jitter x rest i p ps q h = (
    record {
      cooling = ground (arith, h.cooling);
      blocked = ground (arith, h.blocked);
      no_probe = ps;
    },
    refl,
  )
  release-Stays l transient retry_after scope jitter x rest i p ps q h = (
    record {
      cooling = ground (arith, h.cooling);
      blocked = ground (arith, h.blocked);
      no_probe = ps;
    },
    refl,
  )

  given_back-Stays :
      (o : LeaseOutcome) (retry_after : Option ℕ) (scope : RateScope) (jitter i : ℕ) (x : Broker)
      (p : Option (QuotaLease × List QuotaLease))
      → pick i x.leases ≡ p
      → reports_limit (releases i o retry_after scope jitter) ≡ false
      → IsCooling until x
      → Stays x (given_back s o retry_after scope jitter p x)
  given_back-Stays o retry_after scope jitter i x none e q h = (h, refl)
  given_back-Stays o retry_after scope jitter i x (some (l, rest)) e q h =
      let (p, ps) = pick-All i x.leases {l = l} {rest = rest} h.no_probe e in
      release-Stays l o retry_after scope jitter x rest i p ps q h

  asked-Stays :
      (priority : ℕ) (x : Broker)
      → IsCooling until x
      → Stays x (asked (acquire priority x.now x.coordinator) x)
  unfolding acquire
  asked-Stays priority x h = at x.coordinator.closed
    where
      at :
          (b : Bool)
          → Stays x (asked (if b then none else some (join_queue priority x.now x.coordinator)) x)
      at true = (h, refl)
      at false = (record { cooling = h.cooling; blocked = h.blocked; no_probe = h.no_probe }, refl)

  act-Stays :
      (a : Act) (x : Broker)
      → reports_limit a ≡ false
      → x.now < until
      → IsCooling until x
      → Stays x (act s a x)
  unfolding act close
  act-Stays (asks priority) x q t h = asked-Stays priority x h
  act-Stays (cancels n) x q t h =
      (record { cooling = h.cooling; blocked = h.blocked; no_probe = h.no_probe }, refl)
  act-Stays (waits delay) x q t h =
      (record { cooling = h.cooling; blocked = h.blocked; no_probe = h.no_probe }, refl)
  act-Stays dispatches x q t h =
      dispatched-Stays x (dispatch s x.now x.coordinator) h
        (dispatch-Idles x.now x.coordinator h.cooling h.blocked t)
  act-Stays (releases i o retry_after scope jitter) x q t h =
      given_back-Stays o retry_after scope jitter i x (pick i x.leases) refl q h
  act-Stays closes x q t h =
      (record { cooling = h.cooling; blocked = h.blocked; no_probe = h.no_probe }, refl)

  dispatched-now : (r : Dispatched × Coordinator) (x : Broker) → (dispatched r x).now ≡ x.now
  dispatched-now (granted w lease, c) x = refl
  dispatched-now (idle delay, c) x = refl

  asked-now : (o : Option Coordinator) (x : Broker) → (asked o x).now ≡ x.now
  asked-now none x = refl
  asked-now (some c) x = refl

  given_back-now :
      (o : LeaseOutcome) (retry_after : Option ℕ) (scope : RateScope) (jitter : ℕ)
      (p : Option (QuotaLease × List QuotaLease)) (x : Broker)
      → (given_back s o retry_after scope jitter p x).now ≡ x.now
  given_back-now o retry_after scope jitter none x = refl
  given_back-now o retry_after scope jitter (some (l, rest)) x = refl

  act-now : (a : Act) (x : Broker) → x.now ≤ (act s a x).now
  unfolding act
  act-now (asks priority) x = omega (arith, asked-now (acquire priority x.now x.coordinator) x)
  act-now (cancels n) x = omega arith
  act-now (waits delay) x = omega arith
  act-now dispatches x = omega (arith, dispatched-now (dispatch s x.now x.coordinator) x)
  act-now (releases i o retry_after scope jitter) x =
      omega (arith, given_back-now o retry_after scope jitter (pick i x.leases) x)
  act-now closes x = omega arith

  run-now : (acts : List Act) (x : Broker) → x.now ≤ (run s acts x).now
  run-now [] x = omega arith
  run-now (a ∷ rest) x = omega (arith, act-now a x, run-now rest (act s a x))

  -- While a key cools down and no probe is out, calls of the coordinator's operations and turns
  -- of its dispatcher, of which none reports a rate limit, grant no lease before the cooldown's
  -- end and leave the cooldown as it is.
  pub run-IsCooling :
      (acts : List Act) (x : Broker)
      → IsCooling until x
      → All (λ a. reports_limit a ≡ false) acts
      → (run s acts x).now < until
      → IsCooling until (run s acts x) × ((run s acts x).grants ≡ x.grants)
  run-IsCooling [] x h q t = (h, refl)
  run-IsCooling (a ∷ rest) x h q t =
      let y = act s a x in
      let early : x.now < until = omega (arith, act-now a x, run-now rest y) in
      let (k, same) = act-Stays a x q.0 early h in
      let (l, same') = run-IsCooling rest y k q.1 t in (l, same' ∙ same)
