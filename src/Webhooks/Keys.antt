-- ===== src/Webhooks/Keys.antt =====
-- Transactions of webhooks/worker.py keep the keys of the deliveries unique.
use market_quorum.Prelude.{
  ℕ, ◌≡◌, ◌≢◌, refl, Bool, List, [], ◌∷◌, ◌++◌, Option, none, some, arith, Bool-cases, inl, inr,
  is_empty,
}
use market_quorum.Prelude.Table.{Table, lookup, IsUnique, insert-IsUnique}
use market_quorum.Webhooks.{Webhook, WebhookDelivery, StoredEvent, Outbox}
use market_quorum.Webhooks.Delivery.{DeliveryAttempt}
use market_quorum.Webhooks.Enqueue.{
  NewId, Inserted, has_delivery, insert_ignore, insert_all, missing_events, enqueue_hook,
  enqueue_each, enqueue_missing, active_hooks,
}
use market_quorum.Webhooks.Queue.{
  Texts, ClaimedDelivery, recover_each, recover_expired_claims, claim, complete, complete_row,
  is_held_claim, claim_row, claim_joined, next_delivery,
}

-- `uuid4` gives an identifier that no row has.
abbrev pub IsFresh : NewId → Type 0
IsFresh new_id = (ds : Table WebhookDelivery) → lookup (new_id ds) ds ≡ none

recover_each-none :
    (now k : ℕ) (ds : Table WebhookDelivery)
    → lookup k ds ≡ none
    → lookup k (recover_each now ds) ≡ none
recover_each-none now k [] h = refl
recover_each-none now k ((j, d) ∷ ds) h = ground (arith, recover_each-none now k ds)

recover_each-IsUnique :
    (now : ℕ) (ds : Table WebhookDelivery) → IsUnique ds → IsUnique (recover_each now ds)
recover_each-IsUnique now [] u = tt
recover_each-IsUnique now ((j, d) ∷ ds) u =
    (recover_each-none now j ds u.0, recover_each-IsUnique now ds u.1)

append-none :
    (k j : ℕ) (d : WebhookDelivery) (ds : Table WebhookDelivery)
    → lookup k ds ≡ none
    → k ≢ j
    → lookup k (ds ++ (j, d) ∷ []) ≡ none
append-none k j d [] h ne = ground arith
append-none k j d (x ∷ ds) h ne = ground (arith, append-none k j d ds)

append-IsUnique :
    (j : ℕ) (d : WebhookDelivery) (ds : Table WebhookDelivery)
    → IsUnique ds
    → lookup j ds ≡ none
    → IsUnique (ds ++ (j, d) ∷ [])
append-IsUnique j d [] u h = (refl, tt)
append-IsUnique j d ((k, x) ∷ ds) u h =
    (append-none k j d ds u.0 (λ e. ground arith), append-IsUnique j d ds u.1 (ground arith))

module _ (new_id : NewId) (fresh : IsFresh new_id) (now : ℕ) where
  insert_ignore-IsUnique :
      (w e : ℕ) (s : Inserted) → IsUnique s.1 → IsUnique (insert_ignore new_id now w e s).1
  insert_ignore-IsUnique w e (n, ds) u = elim (Bool-cases (has_delivery w e ds)) [
    | inl old ↦ rw old u
    | inr new ↦ rw new (append-IsUnique (new_id ds) _ ds u (fresh ds))
  ]

  insert_all-IsUnique :
      (w : ℕ) (es : List (ℕ × StoredEvent)) (s : Inserted)
      → IsUnique s.1
      → IsUnique (insert_all new_id now w es s).1
  insert_all-IsUnique w [] s u = u
  insert_all-IsUnique w ((e, x) ∷ es) s u =
      insert_all-IsUnique w es (insert_ignore new_id now w e s) (insert_ignore-IsUnique w e s u)

  enqueue_hook-IsUnique :
      (limit : ℕ) (events : Table StoredEvent) (hook : ℕ × Webhook) (s : Inserted)
      → IsUnique s.1
      → IsUnique (enqueue_hook new_id now limit events hook s).1
  enqueue_hook-IsUnique limit events (w, h) s u = elim (Bool-cases (is_empty h.event_types_json)) [
    | inl none_wanted ↦ rw none_wanted u
    | inr wanted ↦ rw wanted (insert_all-IsUnique w (missing_events limit w h events s.1) s u)
  ]

  enqueue_each-IsUnique :
      (limit : ℕ) (events : Table StoredEvent) (hooks : List (ℕ × Webhook)) (s : Inserted)
      → IsUnique s.1
      → IsUnique (enqueue_each new_id now limit events hooks s).1
  enqueue_each-IsUnique limit events [] s u = u
  enqueue_each-IsUnique limit events (hook ∷ hooks) s u =
      enqueue_each-IsUnique limit events hooks (enqueue_hook new_id now limit events hook s)
        (enqueue_hook-IsUnique limit events hook s u)

  pub enqueue_missing-IsUnique :
      (limit : ℕ) (box : Outbox)
      → IsUnique box.deliveries
      → IsUnique (enqueue_missing new_id now limit box).1.deliveries
  unfolding enqueue_missing
  enqueue_missing-IsUnique limit box u =
      enqueue_each-IsUnique limit box.events (active_hooks box.webhooks) (0, box.deliveries) u

pub recover_expired_claims-IsUnique :
    (now : ℕ) (box : Outbox)
    → IsUnique box.deliveries
    → IsUnique (recover_expired_claims now box).1.deliveries
unfolding recover_expired_claims
recover_expired_claims-IsUnique now box u = recover_each-IsUnique now box.deliveries u

pub claim-IsUnique :
    (texts : Texts) (is_locked : ℕ → Bool) (now : ℕ) (box : Outbox)
    → IsUnique box.deliveries
    → IsUnique (claim texts is_locked now box).1.deliveries
unfolding claim
claim-IsUnique texts is_locked now box u = row (next_delivery is_locked now box)
  where
    joined :
        (id : ℕ) (d : WebhookDelivery) (o : Option Webhook) (e : Option StoredEvent)
        → IsUnique (claim_joined texts now (id, d) o e box).1.deliveries
    joined id d none e = u
    joined id d (some w) none = u
    joined id d (some w) (some e) = insert-IsUnique id _ box.deliveries u

    row : (o : Option (ℕ × WebhookDelivery)) → IsUnique (claim_row texts now o box).1.deliveries
    row none = u
    row (some (id, d)) =
        joined id d (lookup d.webhook_id box.webhooks) (lookup d.event_id box.events)

pub complete-IsUnique :
    (claimed : ClaimedDelivery) (result : DeliveryAttempt) (box : Outbox)
    → IsUnique box.deliveries
    → IsUnique (complete claimed result box).deliveries
unfolding complete
complete-IsUnique claimed result box u = row (lookup claimed.delivery_id box.deliveries)
  where
    row : (o : Option WebhookDelivery) → IsUnique (complete_row claimed result o box).deliveries
    row none = u
    row (some d) = elim (Bool-cases (is_held_claim claimed d)) [
      | inl held ↦ rw held (insert-IsUnique claimed.delivery_id _ box.deliveries u)
      | inr lost ↦ rw lost u
    ]
