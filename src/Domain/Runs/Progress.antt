-- ===== src/Domain/Runs/Progress.antt =====
-- What the transition table of domain/runs.py implies for the life of a run.
use market_quorum.Prelude.{
  ℕ, ◌+◌, ◌*◌, ◌≤◌, ◌<◌, ◌≡◌, refl, ◌↔◌, ◌⊎◌, Bool, true, false, List, [], ◌∷◌, any, arith, length,
  bit,
}
use market_quorum.Domain.Runs.{
  RunStatus, waiting_for_data, queued, admitted, starting, running_analysts, research_debate,
  trader_plan, risk_debate, portfolio_decision, finalizing, succeeded, failed, cancel_requested,
  cancelling, cancelled, needs_attention, same_status, is_terminal, is_allowed,
}

-- How far a status is along the life cycle.
abbrev pub rank : RunStatus → ℕ
rank waiting_for_data = 0
rank queued = 1
rank admitted = 2
rank starting = 3
rank running_analysts = 4
rank research_debate = 5
rank trader_plan = 6
rank risk_debate = 7
rank portfolio_decision = 8
rank finalizing = 9
rank succeeded = 10
rank cancel_requested = 10
rank cancelling = 11
rank _ = 12

abbrev pub is_requeue : RunStatus → RunStatus → Bool
is_requeue admitted queued = true
is_requeue _ _ = false

-- A transition moves forward, but for the return of an admitted run to the queue.
rank-lt :
    (s t : RunStatus) → is_allowed s t ≡ true → (rank s < rank t) ⊎ ((s ≡ admitted) × (t ≡ queued))
unfolding is_allowed
rank-lt waiting_for_data t h = ground arith
rank-lt _ t h = ground arith

-- The statuses that a run goes through in succession after `s`.
abbrev pub IsTrace : RunStatus → List RunStatus → Type 0
IsTrace s [] = Unit
IsTrace s (t ∷ ts) = (is_allowed s t ≡ true) × IsTrace t ts

abbrev pub final : RunStatus → List RunStatus → RunStatus
final s [] = s
final s (t ∷ ts) = final t ts

abbrev pub requeues : RunStatus → List RunStatus → ℕ
requeues s [] = 0
requeues s (t ∷ ts) = bit (is_requeue s t) + requeues t ts

rank-step :
    (s t : RunStatus) → is_allowed s t ≡ true → rank s + 1 ≤ rank t + 2 * bit (is_requeue s t)
unfolding is_allowed
rank-step waiting_for_data t h = ground arith
rank-step _ t h = ground arith

rank-le : (s : RunStatus) → rank s ≤ 12
rank-le waiting_for_data = omega arith
rank-le _ = omega arith

length-trace :
    (s : RunStatus) (ts : List RunStatus)
    → IsTrace s ts
    → rank s + length ts ≤ rank (final s ts) + 2 * requeues s ts
length-trace s [] h = omega arith
length-trace s (t ∷ ts) h = omega (arith, rank-step s t h.0, length-trace t ts h.1)

-- A sequence of legal transitions, from any status, has at most twelve transitions and two more
-- for each that returns the run from `admitted` to `queued`.
pub trace_bounded :
    (s : RunStatus) (ts : List RunStatus) → IsTrace s ts → length ts ≤ 12 + 2 * requeues s ts
trace_bounded s ts h = omega (arith, length-trace s ts h, rank-le (final s ts))

-- A status allows no transition exactly when it is one of `TERMINAL_STATUSES`.
pub is_terminal_iff_stuck :
    (s : RunStatus) → (is_terminal s ≡ true) ↔ ((t : RunStatus) → is_allowed s t ≡ false)
unfolding is_terminal is_allowed
is_terminal_iff_stuck waiting_for_data = (λ h. cc, λ h. cc (h queued))
is_terminal_iff_stuck queued = (λ h. cc, λ h. cc (h cancelled))
is_terminal_iff_stuck succeeded = (λ h t. refl, λ h. refl)
is_terminal_iff_stuck failed = (λ h t. refl, λ h. refl)
is_terminal_iff_stuck cancelled = (λ h t. refl, λ h. refl)
is_terminal_iff_stuck needs_attention = (λ h t. refl, λ h. refl)
is_terminal_iff_stuck admitted = (λ h. cc, λ h. cc (h queued))
is_terminal_iff_stuck cancel_requested = (λ h. cc, λ h. cc (h cancelled))
is_terminal_iff_stuck cancelling = (λ h. cc, λ h. cc (h cancelled))
is_terminal_iff_stuck starting = (λ h. cc, λ h. cc (h failed))
is_terminal_iff_stuck _ = (λ h. cc, λ h. cc (h failed))

-- The statuses of a run that is neither cancelled nor failed.
abbrev pub is_on_course : RunStatus → Bool
is_on_course failed = false
is_on_course cancel_requested = false
is_on_course cancelling = false
is_on_course cancelled = false
is_on_course needs_attention = false
is_on_course _ = true

-- A transition leaves the course or moves along it one place at most, and none leads back to it.
on_course-step :
    (s t : RunStatus)
    → is_allowed s t ≡ true
    → is_on_course t ≡ true
    → (is_on_course s ≡ true) × (rank t ≤ rank s + 1)
unfolding is_allowed
on_course-step waiting_for_data t h c = ground arith
on_course-step _ t h c = ground arith

same_status-of_rank :
    (s t : RunStatus)
    → is_on_course s ≡ true
    → is_on_course t ≡ true
    → rank s ≡ rank t
    → same_status s t ≡ true
unfolding same_status
same_status-of_rank waiting_for_data t h c e = ground arith
same_status-of_rank _ t h c e = ground arith

-- A trace that ends on the course has stayed on it.
final-on_course :
    (s : RunStatus) (ts : List RunStatus)
    → IsTrace s ts
    → is_on_course (final s ts) ≡ true
    → is_on_course s ≡ true
final-on_course s [] h c = c
final-on_course s (t ∷ ts) h c = (on_course-step s t h.0 (final-on_course t ts h.1 c)).0

visits :
    (x s : RunStatus) (ts : List RunStatus)
    → IsTrace s ts
    → is_on_course x ≡ true
    → is_on_course (final s ts) ≡ true
    → rank s < rank x
    → rank x ≤ rank (final s ts)
    → any (same_status x) ts ≡ true
visits x s [] h cx c lo hi = absurd (omega arith)
visits x s (t ∷ ts) h cx c lo hi =
    let ct : is_on_course t ≡ true = final-on_course t ts h.1 c in
    ground (arith, on_course-step s t h.0 ct, same_status-of_rank x t cx ct, visits x t ts h.1 cx c)

rank-le-succeeded : (x : RunStatus) → is_on_course x ≡ true → rank x ≤ 10
rank-le-succeeded waiting_for_data c = omega arith
rank-le-succeeded _ c = ground arith

-- A sequence of legal transitions that leads from `queued` to `succeeded` passes every status of
-- the course after `queued`.
pub succeeded_visits_all :
    (x : RunStatus) (ts : List RunStatus)
    → IsTrace queued ts
    → final queued ts ≡ succeeded
    → is_on_course x ≡ true
    → 1 < rank x
    → any (same_status x) ts ≡ true
succeeded_visits_all x ts h e c lo =
    visits x queued ts h c (rw e refl) lo (rw e (rank-le-succeeded x c))
