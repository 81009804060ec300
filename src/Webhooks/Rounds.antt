-- ===== src/Webhooks/Rounds.antt =====
-- The transactions of several workers of webhooks/worker.py, in any order, and one call of `run_once`.
use mathlib.Core.Path.{subst}
use market_quorum.Prelude.{ℕ, ◌+◌, ◌<◌, ◌≡◌, refl, ap, ◌∙◌, sym, Bool, Option, none, some, arith}
use market_quorum.Prelude.Table.{lookup, IsUnique}
use market_quorum.Webhooks.{Outbox}
use market_quorum.Webhooks.Delivery.{DeliveryAttempt, minutes}
use market_quorum.Webhooks.Enqueue.{NewId, enqueue_missing}
use market_quorum.Webhooks.Queue.{
  Texts, ClaimedDelivery, delivering_until, recover_expired_claims, claim, complete,
}
use market_quorum.Webhooks.Phases.{
  Follows, Follows-refl, Follows-trans, recover_expired_claims-Follows, enqueue_missing-Follows,
  complete-Follows, attempt-le,
}
use market_quorum.Webhooks.Keys.{
  IsFresh, recover_expired_claims-IsUnique, enqueue_missing-IsUnique, claim-IsUnique,
  complete-IsUnique,
}
use market_quorum.Webhooks.Claiming.{claim-IsBegun, claim-none, complete-void}

claim-Follows :
    (texts : Texts) (is_locked : ℕ → Bool) (now : ℕ) (box : Outbox)
    → IsUnique box.deliveries
    → Follows box.deliveries (claim texts is_locked now box).1.deliveries
claim-Follows texts is_locked now box u = go (claim texts is_locked now box) refl
  where
    go :
        (r : Option ClaimedDelivery × Outbox)
        → claim texts is_locked now box ≡ r
        → Follows box.deliveries r.1.deliveries
    go (none, b) e =
        subst (λ c. Follows box.deliveries c.deliveries) (claim-none texts is_locked now box e)
          (Follows-refl box.deliveries)
    go (some c, b) e = (claim-IsBegun texts is_locked now box u e).follows

-- A transaction of a worker.
pub data Turn (new_id : NewId) (box : Outbox) : Outbox → Type 0 where
  recovers : (now : ℕ) → Turn new_id box (recover_expired_claims now box).1
  enqueues : (now limit : ℕ) → Turn new_id box (enqueue_missing new_id now limit box).1
  claims :
      (texts : Texts) (is_locked : ℕ → Bool) (now : ℕ)
      → Turn new_id box (claim texts is_locked now box).1
  completes :
      (claimed : ClaimedDelivery) (result : DeliveryAttempt)
      → Turn new_id box (complete claimed result box)

pub data Turns (new_id : NewId) (box : Outbox) : Outbox → Type 0 where
  start : Turns new_id box box
  later : {b c : Outbox} → Turns new_id box b → Turn new_id b c → Turns new_id box c

Turn-kept :
    {new_id : NewId} {b c : Outbox}
    → IsFresh new_id
    → Turn new_id b c
    → IsUnique b.deliveries
    → IsUnique c.deliveries × Follows b.deliveries c.deliveries
Turn-kept {b} fresh (recovers now) u =
    (recover_expired_claims-IsUnique now b u, recover_expired_claims-Follows now b)
Turn-kept {new_id} {b} fresh (enqueues now limit) u = (
  enqueue_missing-IsUnique new_id fresh now limit b u,
  enqueue_missing-Follows new_id now limit b,
)
Turn-kept {b} fresh (claims texts is_locked now) u =
    (claim-IsUnique texts is_locked now b u, claim-Follows texts is_locked now b u)
Turn-kept {b} fresh (completes claimed result) u =
    (complete-IsUnique claimed result b u, complete-Follows claimed result b)

-- Whatever the workers do, keys stay unique and every delivery keeps to the course.
pub Turns-kept :
    {new_id : NewId} {b c : Outbox}
    → IsFresh new_id
    → Turns new_id b c
    → IsUnique b.deliveries
    → IsUnique c.deliveries × Follows b.deliveries c.deliveries
Turns-kept {b} fresh start u = (u, Follows-refl b.deliveries)
Turns-kept {b} fresh (later {b = x} {c = y} ts t) u =
    let (v, f) = Turns-kept fresh ts u in
    let (w, g) = Turn-kept fresh t v in
    (w, Follows-trans b.deliveries x.deliveries y.deliveries f g)

-- Where the keys of the deliveries are unique and new identifiers are fresh, of two calls of
-- `claim` that return the same delivery, with any transactions of the workers between them, the
-- second returns a greater attempt, and after it `complete` for the first changes nothing,
-- whatever its result.
pub claims_grow :
    {new_id : NewId} {claimed claimed' : ClaimedDelivery} (box b c d : Outbox)
    (texts texts' : Texts) (is_locked is_locked' : ℕ → Bool) (now now' : ℕ)
    (result : DeliveryAttempt)
    → IsUnique box.deliveries
    → IsFresh new_id
    → claim texts is_locked now box ≡ (some claimed, b)
    → Turns new_id b c
    → claim texts' is_locked' now' c ≡ (some claimed', d)
    → claimed.delivery_id ≡ claimed'.delivery_id
    → (claimed.attempt < claimed'.attempt) × (complete claimed result d ≡ d)
claims_grow {claimed} {claimed'} box b c d texts texts' is_locked is_locked' now now' result u fresh
      h ts k same =
    let one = claim-IsBegun texts is_locked now box u h in
    let v : IsUnique b.deliveries =
      subst (λ (r : Option ClaimedDelivery × Outbox). IsUnique r.1.deliveries) h
        (claim-IsUnique texts is_locked now box u) in
    let (w, f) = Turns-kept fresh ts v in
    let two = claim-IsBegun texts' is_locked' now' c w k in
    let (e, found, course) = f claimed.delivery_id _ one.written in
    let row : some e ≡ some two.row =
      sym found ∙ ap (λ i. lookup i c.deliveries) same ∙ two.next.found in
    let attempt : e.attempt ≡ two.row.attempt = ground arith in
    let grew = attempt-le (delivering_until (now + minutes 5) one.row) e course in
    let grown : claimed.attempt < claimed'.attempt =
      omega (arith, grew, one.attempt, two.attempt, attempt) in
    let written = ap (λ i. lookup i d.deliveries) same ∙ two.written in
    (grown, complete-void claimed result d written (ground (arith, grown, two.attempt)))
