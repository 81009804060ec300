-- ===== src/Vendors/Quota/Turns.antt =====
-- What a turn of the dispatcher of vendors/alpha_vantage_broker.py does to the counts and times.
use market_quorum.Prelude.{
  ℕ, ◌+◌, ◌≤◌, ◌<◌, ltb, leb, ◌≡◌, refl, true, false, Bool-cases, List, [], ◌∷◌, Option, none, some,
  inl, inr, arith, if◌then◌else◌,
}
use market_quorum.Vendors.Quota.{
  Waiter, QuotaState, normal, cooldown, half_open, QuotaSettings, Coordinator,
}
use market_quorum.Vendors.Quota.Dispatch.{
  Dispatched, granted, idle, thaw_in, or_now, discard, pop_waiter, may_dispatch, dispatch_thawed,
  dispatch_open, dispatch,
}

-- An idle turn moves nothing; a grant is within the limit and not before its time.
abbrev pub Moved : QuotaSettings → ℕ → Coordinator → Dispatched × Coordinator → Type 0
Moved s now c (idle delay, c') =
    (c'.in_flight ≡ c.in_flight) × (c'.next_allowed_at ≡ c.next_allowed_at)
Moved s now c (granted w lease, c') =
    (c.in_flight < s.max_in_flight)
    × (c.next_allowed_at ≤ now)
    × (c'.in_flight ≡ c.in_flight + 1)
    × (c'.next_allowed_at ≡ now + s.interval)

module _ (s : QuotaSettings) (now : ℕ) where
  pop_waiter-Moved :
      (ws : List Waiter) (c : Coordinator)
      → c.in_flight < s.max_in_flight
      → c.next_allowed_at ≤ now
      → Moved s now c (pop_waiter s now ws c)
  pop_waiter-Moved [] c room time = (refl, refl)
  pop_waiter-Moved (w ∷ ws) c room time = elim (Bool-cases w.done) [
    | inl gone ↦ rw gone (refl, refl)
    | inr there ↦ rw there (room, time, refl, refl)
  ]

  dispatch_thawed-Moved :
      (o : Option ℕ) (c : Coordinator) → Moved s now c (dispatch_thawed s now (o, c))
  dispatch_thawed-Moved (some delay) c = (refl, refl)
  dispatch_thawed-Moved none c = elim (Bool-cases (may_dispatch s c)) [
    | inl may ↦ elim (Bool-cases (ltb now c.next_allowed_at)) [
      | inl early ↦ rw may (rw early (refl, refl))
      | inr time ↦ rw may (rw time (pop_waiter-Moved c.waiters c (ground arith) (ground arith)))
    ]
    | inr not_now ↦ rw not_now (refl, refl)
  ]

  thaw_in-same :
      (q : QuotaState) (c : Coordinator)
      → ((thaw_in q now c).1.in_flight ≡ c.in_flight)
        × ((thaw_in q now c).1.next_allowed_at ≡ c.next_allowed_at)
  thaw_in-same normal c = (refl, refl)
  thaw_in-same half_open c = (refl, refl)
  thaw_in-same cooldown c = elim (Bool-cases (leb (or_now now c.blocked_until) now)) [
    | inl over ↦ rw over (refl, refl)
    | inr on ↦ rw on (refl, refl)
  ]

  -- The counts and times are those of a coordinator with other waiters and another state.
  Moved-same :
      (c d : Coordinator) (r : Dispatched × Coordinator)
      → d.in_flight ≡ c.in_flight
      → d.next_allowed_at ≡ c.next_allowed_at
      → Moved s now d r
      → Moved s now c r
  Moved-same c d (idle delay, c') e f m = (ground arith, ground arith)
  Moved-same c d (granted w lease, c') e f m = (ground arith, ground arith, ground arith, m.3)

  pub dispatch-Moved : (c : Coordinator) → Moved s now c (dispatch s now c)
  unfolding dispatch
  dispatch-Moved c =
      elim c.closed as (λ b. Moved s now c (if b then (idle none, c) else dispatch_open s now c)) [
        | true ↦ (refl, refl)
        | false ↦
            let b = record c { waiters = discard c.waiters } in
            let t = thaw_in c.state now b in
            let (e, f) = thaw_in-same c.state b in
            Moved-same c t.1 (dispatch_thawed s now t) e f (dispatch_thawed-Moved t.0 t.1)
      ]
