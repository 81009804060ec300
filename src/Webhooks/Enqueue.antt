-- ===== src/Webhooks/Enqueue.antt =====
-- `enqueue_missing` of WebhookDeliveryWorker in webhooks/worker.py: deliveries for the events that
-- have none.
use market_quorum.Prelude.{
  ℕ, ◌+◌, ltb, ◌==◌, Bool, not, ◌&&◌, List, [], ◌∷◌, ◌++◌, none, if◌then◌else◌, keep, take, any,
  is_empty,
}
use market_quorum.Prelude.Table.{Table}
use market_quorum.Prelude.Sorted.{by_key, order_by}
use market_quorum.Webhooks.{
  Webhook, StoredEvent, WebhookDelivery, pending, Outbox, type_eq, is_active_status,
}

-- The delivery of an event to a webhook, which is unique.
abbrev pub is_pair : ℕ → ℕ → WebhookDelivery → Bool
is_pair webhook_id event_id d = d.webhook_id == webhook_id && d.event_id == event_id

abbrev pub has_delivery : ℕ → ℕ → Table WebhookDelivery → Bool
has_delivery webhook_id event_id = any (λ (_, d). is_pair webhook_id event_id d)

abbrev pub new_delivery : ℕ → ℕ → ℕ → WebhookDelivery
new_delivery webhook_id event_id now = record {
  webhook_id = webhook_id;
  event_id = event_id;
  attempt = 0;
  status = pending;
  response_code = none;
  next_attempt_at = none;
  created_at = now;
}

-- A row that was inserted, or not, and the number of rows inserted so far.
abbrev pub Inserted : Type 0
Inserted = ℕ × Table WebhookDelivery

abbrev pub event_key : ℕ × StoredEvent → ℕ × ℕ
event_key (id, e) = (e.created_at, id)

-- The events of the webhook's types that have no delivery to it.
abbrev pub is_missing : ℕ → Webhook → Table WebhookDelivery → ℕ × StoredEvent → Bool
is_missing w webhook ds (id, e) =
    any (type_eq e.event.event_type) webhook.event_types_json && not (has_delivery w id ds)

unfoldable pub missing_events :
    ℕ → ℕ → Webhook → Table StoredEvent → Table WebhookDelivery → List (ℕ × StoredEvent)
unfolding order_by
missing_events limit w webhook events ds =
    take limit (order_by (by_key event_key) (keep (is_missing w webhook ds) events))

abbrev pub id_lt : ℕ × Webhook → ℕ × Webhook → Bool
id_lt (i, _) (j, _) = ltb i j

abbrev pub active_hooks : Table Webhook → List (ℕ × Webhook)
active_hooks hooks = order_by id_lt (keep (λ (_, webhook). is_active_status webhook.status) hooks)

-- Gives the identifier of a new row.
abbrev pub NewId : Type 0
NewId = Table WebhookDelivery → ℕ

module _ (new_id : NewId) (now : ℕ) where
  -- `insert_ignore`
  abbrev pub insert_ignore : ℕ → ℕ → Inserted → Inserted
  insert_ignore w e (created, ds) =
      if has_delivery w e ds
      then (created, ds)
      else (created + 1, ds ++ (new_id ds, new_delivery w e now) ∷ [])

  abbrev pub insert_all : ℕ → List (ℕ × StoredEvent) → Inserted → Inserted
  insert_all w [] s = s
  insert_all w ((e, _) ∷ es) s = insert_all w es (insert_ignore w e s)

  abbrev pub enqueue_for : ℕ → Table StoredEvent → ℕ × Webhook → Inserted → Inserted
  enqueue_for limit events (w, webhook) (created, ds) =
      insert_all w (missing_events limit w webhook events ds) (created, ds)

  abbrev pub enqueue_hook : ℕ → Table StoredEvent → ℕ × Webhook → Inserted → Inserted
  enqueue_hook limit events (w, webhook) s =
      if is_empty webhook.event_types_json then s else enqueue_for limit events (w, webhook) s

  abbrev pub enqueue_each : ℕ → Table StoredEvent → List (ℕ × Webhook) → Inserted → Inserted
  enqueue_each limit events [] s = s
  enqueue_each limit events (hook ∷ hooks) s =
      enqueue_each limit events hooks (enqueue_hook limit events hook s)

  abbrev pub with_inserted : Outbox → Inserted → ℕ × Outbox
  with_inserted box (created, ds) = (created, record box { deliveries = ds })

  unfoldable pub enqueue_missing : ℕ → Outbox → ℕ × Outbox
  unfolding missing_events order_by
  enqueue_missing per_webhook_limit box =
      with_inserted box
        (enqueue_each per_webhook_limit box.events (active_hooks box.webhooks) (0, box.deliveries))
