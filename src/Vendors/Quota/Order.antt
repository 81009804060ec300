-- ===== src/Vendors/Quota/Order.antt =====
-- Whom the dispatcher of vendors/alpha_vantage_broker.py serves next.
use mathlib.Core.Path.{subst}
use market_quorum.Prelude.{
  ℕ, ltb, leb, ◌≡◌, refl, sym, Bool, true, false, Bool-cases, List, [], ◌∷◌, Option, none, some,
  inl, inr, arith, if◌then◌else◌, All,
}
use market_quorum.Prelude.Sorted.{by_key, by_key-IsOrder, IsLeast, IsSorted, insert_row-IsSorted}
use market_quorum.Vendors.Quota.{
  QuotaLease, Waiter, waiter_key, QuotaState, normal, cooldown, half_open, QuotaSettings,
  Coordinator, join_queue, acquire, release, close, LeaseOutcome, success, rate_limit, transient,
  RateScope,
}
use market_quorum.Vendors.Quota.Dispatch.{
  Dispatched, granted, idle, discard, or_now, thaw_in, granted_to, pop_waiter, may_dispatch,
  dispatch_thawed, dispatch_open, dispatch,
}
use market_quorum.Vendors.Quota.Run.{
  Broker, new_broker, Act, asks, cancels, waits, dispatches, releases, closes, act, asked,
  dispatched, given_back, pick, cancelled, cancel_waiters, run,
}

abbrev pub goes_before : Waiter → Waiter → Bool
goes_before = by_key waiter_key

discard-IsSorted : (ws : List Waiter) → IsSorted goes_before ws → IsSorted goes_before (discard ws)
discard-IsSorted [] h = tt
discard-IsSorted (w ∷ ws) h = elim (Bool-cases w.done) [
  | inl gone ↦ rw gone (discard-IsSorted ws h.1)
  | inr there ↦ rw there h
]

-- A turn keeps the order, and grants the first waiter that is left.
abbrev pub Serves : List Waiter → Dispatched × Coordinator → Type 0
Serves ws (idle delay, c) = IsSorted goes_before c.waiters
Serves ws (granted w lease, c) =
    (ws ≡ w ∷ c.waiters) × (w.done ≡ false) × IsSorted goes_before c.waiters

module _ (s : QuotaSettings) (now : ℕ) where
  pop_waiter-Serves :
      (ws : List Waiter) (c : Coordinator)
      → IsSorted goes_before c.waiters
      → IsSorted goes_before ws
      → Serves ws (pop_waiter s now ws c)
  pop_waiter-Serves [] c h k = h
  pop_waiter-Serves (w ∷ ws) c h k =
      elim w.done
          as (λ b.
            (w.done ≡ b)
            → Serves (w ∷ ws)
                (if b then (idle none, record c { waiters = ws }) else granted_to s now w ws c)) [
                  | true ↦ λ e. k.1
                  | false ↦ λ e. (refl, e, k.1)
                ]
        refl

  dispatch_thawed-Serves :
      (o : Option ℕ) (c : Coordinator)
      → IsSorted goes_before c.waiters
      → Serves c.waiters (dispatch_thawed s now (o, c))
  dispatch_thawed-Serves (some delay) c h = h
  dispatch_thawed-Serves none c h = elim (Bool-cases (may_dispatch s c)) [
    | inl may ↦ elim (Bool-cases (ltb now c.next_allowed_at)) [
      | inl early ↦ rw may (rw early h)
      | inr time ↦ rw may (rw time (pop_waiter-Serves c.waiters c h h))
    ]
    | inr not_now ↦ rw not_now h
  ]

  thaw_in-waiters : (q : QuotaState) (c : Coordinator) → (thaw_in q now c).1.waiters ≡ c.waiters
  thaw_in-waiters normal c = refl
  thaw_in-waiters half_open c = refl
  thaw_in-waiters cooldown c = elim (Bool-cases (leb (or_now now c.blocked_until) now)) [
    | inl over ↦ rw over refl
    | inr on ↦ rw on refl
  ]

  pub dispatch-Serves :
      (c : Coordinator)
      → IsSorted goes_before c.waiters
      → Serves (discard c.waiters) (dispatch s now c)
  unfolding dispatch
  dispatch-Serves c h =
      elim c.closed
        as (λ b. Serves (discard c.waiters) (if b then (idle none, c) else dispatch_open s now c)) [
          | true ↦ h
          | false ↦
              let t = thaw_in c.state now (record c { waiters = discard c.waiters }) in
              let same = thaw_in-waiters c.state (record c { waiters = discard c.waiters }) in
              subst (λ ws. Serves ws (dispatch_thawed s now t)) same
                (dispatch_thawed-Serves t.0 t.1
                  (subst (IsSorted goes_before) (sym same) (discard-IsSorted c.waiters h)))
        ]

cancel-IsLeast :
    (n : ℕ) (w : Waiter) (ws : List Waiter)
    → IsLeast goes_before w ws
    → IsLeast goes_before (cancelled n w) (cancel_waiters n ws)
cancel-IsLeast n w [] h = tt
cancel-IsLeast n w (v ∷ ws) h = (ground (arith, h.0), cancel-IsLeast n w ws h.1)

cancel-IsSorted :
    (n : ℕ) (ws : List Waiter)
    → IsSorted goes_before ws
    → IsSorted goes_before (cancel_waiters n ws)
cancel-IsSorted n [] h = tt
cancel-IsSorted n (w ∷ ws) h = (cancel-IsLeast n w ws h.0, cancel-IsSorted n ws h.1)

release-waiters :
    (s : QuotaSettings) (l : QuotaLease) (o : LeaseOutcome) (retry_after : Option ℕ)
    (scope : RateScope) (now jitter : ℕ) (c : Coordinator)
    → (release s l o retry_after scope now jitter c).waiters ≡ c.waiters
unfolding release
release-waiters s l rate_limit retry_after scope now jitter c = refl
release-waiters s l success retry_after scope now jitter c = ground arith
release-waiters s l transient retry_after scope now jitter c = ground arith

module _ (s : QuotaSettings) where
  abbrev InOrder : Broker → Type 0
  InOrder x = IsSorted goes_before x.coordinator.waiters

  asked-InOrder :
      (priority : ℕ) (x : Broker)
      → InOrder x
      → InOrder (asked (acquire priority x.now x.coordinator) x)
  unfolding acquire
  asked-InOrder priority x h = at x.coordinator.closed
    where
      at :
          (b : Bool)
          → InOrder (asked (if b then none else some (join_queue priority x.now x.coordinator)) x)
      at true = h
      at false = insert_row-IsSorted (by_key-IsOrder waiter_key) _ x.coordinator.waiters h

  dispatched-InOrder :
      (x : Broker) (ws : List Waiter) (r : Dispatched × Coordinator)
      → Serves ws r
      → InOrder (dispatched r x)
  dispatched-InOrder x ws (idle delay, c) m = m
  dispatched-InOrder x ws (granted w lease, c) m = m.2

  given_back-InOrder :
      (o : LeaseOutcome) (retry_after : Option ℕ) (scope : RateScope) (jitter : ℕ) (x : Broker)
      (p : Option (QuotaLease × List QuotaLease))
      → InOrder x
      → InOrder (given_back s o retry_after scope jitter p x)
  given_back-InOrder o retry_after scope jitter x none h = h
  given_back-InOrder o retry_after scope jitter x (some (l, rest)) h =
      rw (release-waiters s l o retry_after scope x.now jitter x.coordinator) h

  act-InOrder : (a : Act) (x : Broker) → InOrder x → InOrder (act s a x)
  unfolding act close
  act-InOrder (asks priority) x h = asked-InOrder priority x h
  act-InOrder (cancels n) x h = cancel-IsSorted n x.coordinator.waiters h
  act-InOrder (waits delay) x h = h
  act-InOrder dispatches x h =
      dispatched-InOrder x _ (dispatch s x.now x.coordinator)
        (dispatch-Serves s x.now x.coordinator h)
  act-InOrder (releases i o retry_after scope jitter) x h =
      given_back-InOrder o retry_after scope jitter x (pick i x.leases) h
  act-InOrder closes x h = tt

  run-InOrder : (acts : List Act) (x : Broker) → InOrder x → InOrder (run s acts x)
  run-InOrder [] x h = h
  run-InOrder (a ∷ rest) x h = run-InOrder rest (act s a x) (act-InOrder a x h)

All-waiting :
    (w : Waiter) (ws : List Waiter)
    → IsLeast goes_before w ws
    → All (λ v. v.done ≡ false → goes_before v w ≡ false) ws
All-waiting w [] h = tt
All-waiting w (v ∷ ws) h = (λ _. h.0, All-waiting w ws h.1)

-- What is first when those who gave up are discarded comes before all who wait.
discard-first :
    (ws : List Waiter) {w : Waiter} {rest : List Waiter}
    → IsSorted goes_before ws
    → discard ws ≡ w ∷ rest
    → All (λ v. v.done ≡ false → goes_before v w ≡ false) ws
discard-first [] h e = tt
discard-first (u ∷ ws) {w} {rest} h e = elim (Bool-cases u.done) [
  | inl gone ↦ (λ there. ground arith, discard-first ws {w = w} {rest = rest} h.1 (ground arith))
  | inr there ↦
      let same : u ≡ w = ground arith in
      subst (λ x. All (λ v. v.done ≡ false → goes_before v x ≡ false) (u ∷ ws)) same
        (λ _. ground arith, All-waiting u ws h.0)
]

-- The waiter is at hand, has not given up, and no other one who waits goes before it.
pub record IsServedFirst (w : Waiter) (c c' : Coordinator) : Type 0 where
  pub waited : discard c.waiters ≡ w ∷ c'.waiters
  pub there : w.done ≡ false
  pub least : All (λ v. v.done ≡ false → goes_before v w ≡ false) c.waiters

-- After any calls of the coordinator's operations, turns of its dispatcher and time that passes,
-- from a new coordinator on, a waiter to whom a turn grants a lease is the first in the queue but
-- for those who gave up, has not given up, and no other waiter who has not goes before it, by
-- priority and then by the order of the calls.
pub run-IsServedFirst :
    (s : QuotaSettings) (acts : List Act) (now : ℕ) {w : Waiter} {lease : QuotaLease}
    {c : Coordinator}
    → dispatch s now (run s acts new_broker).coordinator ≡ (granted w lease, c)
    → IsServedFirst w (run s acts new_broker).coordinator c
run-IsServedFirst s acts now e =
    let x = (run s acts new_broker).coordinator in
    let h = run-InOrder s acts new_broker tt in
    let (waited, there, _) = subst (Serves (discard x.waiters)) e (dispatch-Serves s now x h) in
    record { waited = waited; there = there; least = discard-first x.waiters h waited }
