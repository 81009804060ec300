-- ===== src/Webhooks/Phases.antt =====
-- What webhooks/worker.py promises of one delivery: the phases that it goes through. Each transaction
-- of a worker moves a delivery by this course or leaves it.
use mathlib.Core.Path.{subst}
use market_quorum.Prelude.{
  ℕ, ◌+◌, ◌≤◌, ◌==◌, ◌≡◌, refl, ◌∙◌, sym, Bool-cases, true, List, [], ◌∷◌, ◌++◌, Option, none, some,
  arith, inl, inr, is_empty, ==_iff,
}
use market_quorum.Prelude.Table.{Table, lookup, insert, lookup-insert}
use market_quorum.Webhooks.{
  WebhookDelivery, Webhook, StoredEvent, Outbox, is_pending, is_delivering, DeliveryStatus, pending,
  delivering, delivered, failed,
}
use market_quorum.Webhooks.Delivery.{DeliveryAttempt}
use market_quorum.Webhooks.Enqueue.{
  NewId, Inserted, has_delivery, insert_ignore, insert_all, missing_events, enqueue_hook,
  enqueue_each, enqueue_missing, active_hooks,
}
use market_quorum.Webhooks.Queue.{
  ClaimedDelivery, claim_expired, recovered_delivery, recover_each, recover_expired_claims,
  is_held_claim, completed, complete_row, complete,
}

-- A phase, with the number of attempts that were begun.
pub data Phase : Type 0 where
  due posted sent dropped : ℕ → Phase

abbrev pub phase : DeliveryStatus → ℕ → Phase
phase pending n = due n
phase delivering n = posted n
phase delivered n = sent n
phase failed n = dropped n

abbrev pub phase_of : WebhookDelivery → Phase
phase_of d = phase d.status d.attempt

pub data Move : Phase → Phase → Type 0 where
  begin : {m n : ℕ} → n ≡ m + 1 → Move (due m) (posted n)
  return : {n : ℕ} → Move (posted n) (due n)
  succeed : {n : ℕ} → Move (posted n) (sent n)
  give_up : {n : ℕ} → Move (posted n) (dropped n)

pub data Course (p : Phase) : Phase → Type 0 where
  here : Course p p
  next : {q r : Phase} → Course p q → Move q r → Course p r

pub Course-trans : {p q r : Phase} → Course p q → Course q r → Course p r
Course-trans c here = c
Course-trans c (next d m) = next (Course-trans c d) m

abbrev pub attempts : Phase → ℕ
attempts (due n) = n
attempts (posted n) = n
attempts (sent n) = n
attempts (dropped n) = n

Move-attempts : {p q : Phase} → Move p q → attempts p ≤ attempts q
Move-attempts (begin e) = omega arith
Move-attempts return = omega arith
Move-attempts succeed = omega arith
Move-attempts give_up = omega arith

-- Attempts are never taken back.
Course-attempts : {p q : Phase} → Course p q → attempts p ≤ attempts q
Course-attempts here = omega arith
Course-attempts (next c m) = omega (arith, Course-attempts c, Move-attempts m)

attempts-phase : (s : DeliveryStatus) (n : ℕ) → attempts (phase s n) ≡ n
attempts-phase pending n = refl
attempts-phase delivering n = refl
attempts-phase delivered n = refl
attempts-phase failed n = refl

pub attempt-le :
    (d d' : WebhookDelivery) → Course (phase_of d) (phase_of d') → d.attempt ≤ d'.attempt
attempt-le d d' c = omega (
  arith,
  Course-attempts c,
  attempts-phase d.status d.attempt,
  attempts-phase d'.status d'.attempt,
)

-- No delivery is lost, and each goes on by the course.
abbrev pub Follows : Table WebhookDelivery → Table WebhookDelivery → Type 0
Follows ds ds' =
    (id : ℕ) (d : WebhookDelivery)
    → lookup id ds ≡ some d
    → (d' : WebhookDelivery) × (lookup id ds' ≡ some d') × Course (phase_of d) (phase_of d')

pub Follows-refl : (ds : Table WebhookDelivery) → Follows ds ds
Follows-refl ds id d e = (d, e, here)

pub Follows-trans :
    (xs ys zs : Table WebhookDelivery) → Follows xs ys → Follows ys zs → Follows xs zs
Follows-trans xs ys zs f g id d e =
    let (d', e', c) = f id d e in let (d'', e'', c') = g id d' e' in (d'', e'', Course-trans c c')

-- A write to a row that moves it.
pub insert-Follows :
    (id : ℕ) (d d' : WebhookDelivery) (ds : Table WebhookDelivery)
    → lookup id ds ≡ some d
    → Course (phase_of d) (phase_of d')
    → Follows ds (insert id d' ds)
insert-Follows id d d' ds found c j x e = elim (Bool-cases (id == j)) [
  | inl same ↦
      let eq : d ≡ x = ground (arith, ==_iff j id) in
      (
        d',
        lookup-insert j id d' ds ∙ rw same refl,
        subst (λ y. Course (phase_of y) (phase_of d')) eq c,
      )
  | inr other ↦ (x, lookup-insert j id d' ds ∙ rw other e, here)
]

pub delivering-eq : (s : DeliveryStatus) → is_delivering s ≡ true → s ≡ delivering
delivering-eq delivering h = refl
delivering-eq pending h = cc
delivering-eq delivered h = cc
delivering-eq failed h = cc

pub pending-eq : (s : DeliveryStatus) → is_pending s ≡ true → s ≡ pending
pending-eq pending h = refl
pending-eq delivering h = cc
pending-eq delivered h = cc
pending-eq failed h = cc

pub return-Course :
    (s : DeliveryStatus) (n : ℕ) → is_delivering s ≡ true → Course (phase s n) (due n)
return-Course s n h =
    subst (λ t. Course (phase t n) (due n)) (sym (delivering-eq s h)) (next here return)

recovered_delivery-Course :
    (now : ℕ) (d : WebhookDelivery) → Course (phase_of d) (phase_of (recovered_delivery now d))
recovered_delivery-Course now d = elim (Bool-cases (claim_expired now d)) [
  | inl expired ↦ rw expired (return-Course d.status d.attempt (ground arith))
  | inr held ↦ rw held here
]

pub recover_each-Follows : (now : ℕ) (ds : Table WebhookDelivery) → Follows ds (recover_each now ds)
recover_each-Follows now [] id d e = cc
recover_each-Follows now ((j, w) ∷ ds) id d e = elim (Bool-cases (id == j)) [
  | inl same ↦
      let eq : w ≡ d = ground arith in
      (
        recovered_delivery now w,
        rw same,
        subst (λ y. Course (phase_of y) (phase_of (recovered_delivery now w))) eq
            (recovered_delivery-Course now w),
      )
  | inr other ↦
      let (d', found, c) = recover_each-Follows now ds id d (rw other at e) in
      (d', rw other found, c)
]

pub recover_expired_claims-Follows :
    (now : ℕ) (box : Outbox) → Follows box.deliveries (recover_expired_claims now box).1.deliveries
unfolding recover_expired_claims
recover_expired_claims-Follows now box = recover_each-Follows now box.deliveries

lookup-append :
    (k : ℕ) (v : WebhookDelivery) (xs ys : Table WebhookDelivery)
    → lookup k xs ≡ some v
    → lookup k (xs ++ ys) ≡ some v
lookup-append k v [] ys e = cc
lookup-append k v (x ∷ xs) ys e = ground (arith, lookup-append k v xs ys)

module _ (new_id : NewId) (now : ℕ) where
  insert_ignore-Follows : (w e : ℕ) (s : Inserted) → Follows s.1 (insert_ignore new_id now w e s).1
  insert_ignore-Follows w e (n, ds) id d found = elim (Bool-cases (has_delivery w e ds)) [
    | inl old ↦ rw old (d, found, here)
    | inr new ↦ rw new (d, lookup-append id d ds _ found, here)
  ]

  insert_all-Follows :
      (w : ℕ) (es : List (ℕ × StoredEvent)) (s : Inserted)
      → Follows s.1 (insert_all new_id now w es s).1
  insert_all-Follows w [] s = Follows-refl s.1
  insert_all-Follows w ((e, x) ∷ es) s =
      let t = insert_ignore new_id now w e s in
      Follows-trans s.1 t.1 _ (insert_ignore-Follows w e s) (insert_all-Follows w es t)

  enqueue_hook-Follows :
      (limit : ℕ) (events : Table StoredEvent) (hook : ℕ × Webhook) (s : Inserted)
      → Follows s.1 (enqueue_hook new_id now limit events hook s).1
  enqueue_hook-Follows limit events (w, h) s = elim (Bool-cases (is_empty h.event_types_json)) [
    | inl none_wanted ↦ rw none_wanted (Follows-refl s.1)
    | inr wanted ↦ rw wanted (insert_all-Follows w (missing_events limit w h events s.1) s)
  ]

  enqueue_each-Follows :
      (limit : ℕ) (events : Table StoredEvent) (hooks : List (ℕ × Webhook)) (s : Inserted)
      → Follows s.1 (enqueue_each new_id now limit events hooks s).1
  enqueue_each-Follows limit events [] s = Follows-refl s.1
  enqueue_each-Follows limit events (hook ∷ hooks) s =
      let t = enqueue_hook new_id now limit events hook s in
      Follows-trans s.1 t.1 _ (enqueue_hook-Follows limit events hook s)
        (enqueue_each-Follows limit events hooks t)

  pub enqueue_missing-Follows :
      (limit : ℕ) (box : Outbox)
      → Follows box.deliveries (enqueue_missing new_id now limit box).1.deliveries
  unfolding enqueue_missing
  enqueue_missing-Follows limit box =
      enqueue_each-Follows limit box.events (active_hooks box.webhooks) (0, box.deliveries)

-- A result that an attempt may have.
complete-Course :
    (s r : DeliveryStatus) (n : ℕ) → is_delivering s ≡ true → Course (phase s n) (phase r n)
complete-Course s r n h =
    subst (λ t. Course (phase t n) (phase r n)) (sym (delivering-eq s h)) (from r)
  where
    from : (r : DeliveryStatus) → Course (posted n) (phase r n)
    from pending = next here return
    from delivering = here
    from delivered = next here succeed
    from failed = next here give_up

pub complete-Follows :
    (claimed : ClaimedDelivery) (result : DeliveryAttempt) (box : Outbox)
    → Follows box.deliveries (complete claimed result box).deliveries
unfolding complete
complete-Follows claimed result box = go (lookup claimed.delivery_id box.deliveries) refl
  where
    go :
        (o : Option WebhookDelivery)
        → lookup claimed.delivery_id box.deliveries ≡ o
        → Follows box.deliveries (complete_row claimed result o box).deliveries
    go none e = Follows-refl box.deliveries
    go (some d) e = elim (Bool-cases (is_held_claim claimed d)) [
      | inl held ↦ rw held (
          insert-Follows claimed.delivery_id d (completed result d) box.deliveries e
            (complete-Course d.status result.status d.attempt (ground arith)))
      | inr lost ↦ rw lost (Follows-refl box.deliveries)
    ]
