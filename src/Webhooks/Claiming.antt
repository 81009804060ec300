-- ===== src/Webhooks/Claiming.antt =====
-- Which delivery `claim` of webhooks/worker.py takes, and what becomes of a claim that is late.
use market_quorum.Prelude.{
  ℕ, ◌+◌, ◌≡◌, refl, sym, Bool, true, false, keep, All, All-keep, first-eq_some, keep-All,
  All-of_keep, Option, none, some, arith,
}
use mathlib.Core.Path.{subst}
use market_quorum.Prelude.Table.{
  lookup, insert, IsUnique, IsUnique-IsFound, IsFound-All, lookup-insert_self,
}
use market_quorum.Prelude.Sorted.{order_by, All-order_by, IsOrder, order_by-IsLeast}
use market_quorum.Webhooks.{Webhook, WebhookDelivery, StoredEvent, Outbox, pending}
use market_quorum.Webhooks.Queue.{
  Texts, ClaimedDelivery, is_deliverable, claim_lt, next_delivery, claim, claim_row, claim_joined,
  delivering_until, claimed_delivery, complete, complete_row, is_held_claim,
}
use market_quorum.Webhooks.Delivery.{DeliveryAttempt, minutes}
use market_quorum.Webhooks.Phases.{
  phase, pending-eq, posted, Course, begin, here, Follows, insert-Follows,
}

claim_lt-IsOrder : IsOrder claim_lt
claim_lt-IsOrder = record { irrefl = λ a. ground arith; less = λ x h y p q. ground arith }

-- The row is due, and no row that is due comes before it.
pub record IsNext (is_locked : ℕ → Bool) (now : ℕ) (box : Outbox) (row : ℕ × WebhookDelivery)
    : Type 0 where
  pub found : lookup row.0 box.deliveries ≡ some row.1
  pub claimable : is_deliverable is_locked now box row ≡ true
  pub least :
      All (λ x. is_deliverable is_locked now box x ≡ true → claim_lt x row ≡ false) box.deliveries

next_delivery-IsNext :
    (is_locked : ℕ → Bool) (now : ℕ) (box : Outbox) {row : ℕ × WebhookDelivery}
    → IsUnique box.deliveries
    → next_delivery is_locked now box ≡ some row
    → IsNext is_locked now box row
unfolding next_delivery
next_delivery-IsNext is_locked now box u h =
    let p = is_deliverable is_locked now box in
    let rows = keep p box.deliveries in
    let (t, e) = first-eq_some (order_by claim_lt rows) h in
    let found = subst (All (λ (k, v). lookup k box.deliveries ≡ some v)) e (
      All-order_by claim_lt _ rows (
        All-keep _ p box.deliveries
          (IsFound-All box.deliveries box.deliveries (IsUnique-IsFound box.deliveries u)))) in
    let due =
      subst (All (λ x. p x ≡ true)) e (All-order_by claim_lt _ rows (keep-All p box.deliveries)) in
    record {
      found = found.0;
      claimable = due.0;
      least = All-of_keep _ p box.deliveries (order_by-IsLeast claim_lt-IsOrder rows e);
    }

-- The claim is of the next delivery, whose next attempt it begins.
pub record IsBegun (is_locked : ℕ → Bool) (now : ℕ) (claimed : ClaimedDelivery) (box box' : Outbox)
    : Type 0 where
  pub row : WebhookDelivery
  pub next : IsNext is_locked now box (claimed.delivery_id, row)
  pub attempt : claimed.attempt ≡ row.attempt + 1
  pub for_event : claimed.event_id ≡ row.event_id
  pub written :
      lookup claimed.delivery_id box'.deliveries ≡ some (delivering_until (now + minutes 5) row)
  pub follows : Follows box.deliveries box'.deliveries

begun :
    (texts : Texts) (is_locked : ℕ → Bool) (now : ℕ) (box : Outbox) (id : ℕ) (d : WebhookDelivery)
    (o : Option Webhook) (e : Option StoredEvent) {claimed : ClaimedDelivery} {box' : Outbox}
    → IsNext is_locked now box (id, d)
    → claim_joined texts now (id, d) o e box ≡ (some claimed, box')
    → IsBegun is_locked now claimed box box'
begun texts is_locked now box id d none e n h = cc
begun texts is_locked now box id d (some w) none n h = cc
begun texts is_locked now box id d (some w) (some e) {claimed} {box'} n h =
    let d' = delivering_until (now + minutes 5) d in
    let c = claimed_delivery texts id d w e in
    let is_pending : d.status ≡ pending = pending-eq d.status (ground (arith, n.claimable)) in
    let same : (c, record box { deliveries = insert id d' box.deliveries }) ≡ (claimed, box') =
      ground arith in
    subst (λ (p : ClaimedDelivery × Outbox). IsBegun is_locked now p.0 box p.1) same
      (record {
        row = d;
        next = n;
        attempt = refl;
        for_event = refl;
        written = lookup-insert_self id d' box.deliveries;
        follows = insert-Follows id d d' box.deliveries n.found (
            subst (λ s. Course (phase s d.attempt) (posted (d.attempt + 1))) (sym is_pending)
              (Course.next here (begin refl)));
      })

-- C
pub claim-IsBegun :
    (texts : Texts) (is_locked : ℕ → Bool) (now : ℕ) (box : Outbox) {claimed : ClaimedDelivery}
    {box' : Outbox}
    → IsUnique box.deliveries
    → claim texts is_locked now box ≡ (some claimed, box')
    → IsBegun is_locked now claimed box box'
unfolding claim
claim-IsBegun texts is_locked now box {claimed} {box'} u h =
    go (next_delivery is_locked now box) refl h
  where
    go :
        (o : Option (ℕ × WebhookDelivery))
        → next_delivery is_locked now box ≡ o
        → claim_row texts now o box ≡ (some claimed, box')
        → IsBegun is_locked now claimed box box'
    go none e k = cc
    go (some (id, d)) e k =
        begun texts is_locked now box id d (lookup d.webhook_id box.webhooks)
          (lookup d.event_id box.events) (next_delivery-IsNext is_locked now box u e) k

-- A claim that returns nothing changes nothing.
claim_joined-none :
    (texts : Texts) (now id : ℕ) (d : WebhookDelivery) (o : Option Webhook) (e : Option StoredEvent)
    (box : Outbox) {box' : Outbox}
    → claim_joined texts now (id, d) o e box ≡ (none, box')
    → box ≡ box'
claim_joined-none texts now id d none e box h = ground arith
claim_joined-none texts now id d (some w) none box h = ground arith
claim_joined-none texts now id d (some w) (some e) box h = cc

pub claim-none :
    (texts : Texts) (is_locked : ℕ → Bool) (now : ℕ) (box : Outbox) {box' : Outbox}
    → claim texts is_locked now box ≡ (none, box')
    → box ≡ box'
unfolding claim
claim-none texts is_locked now box {box'} h = go (next_delivery is_locked now box) h
  where
    go : (o : Option (ℕ × WebhookDelivery)) → claim_row texts now o box ≡ (none, box') → box ≡ box'
    go none k = ground arith
    go (some (id, d)) k =
        claim_joined-none texts now id d (lookup d.webhook_id box.webhooks)
          (lookup d.event_id box.events) box k

-- A claim whose delivery is in another phase is void.
pub complete-void :
    (claimed : ClaimedDelivery) (result : DeliveryAttempt) (box : Outbox) {d : WebhookDelivery}
    → lookup claimed.delivery_id box.deliveries ≡ some d
    → is_held_claim claimed d ≡ false
    → complete claimed result box ≡ box
unfolding complete
complete-void claimed result box e lost = rw (e, complete_row) (rw lost refl)
