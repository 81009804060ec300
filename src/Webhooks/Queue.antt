-- ===== src/Webhooks/Queue.antt =====
-- The other transactions of WebhookDeliveryWorker in webhooks/worker.py.
use Prim.Native.String.{◌++◌ as append}
use market_quorum.Prelude.{
  ℕ, ◌+◌, ltb, leb, ◌==◌, Bool, false, not, ◌&&◌, ◌||◌, List, [], ◌∷◌, Option, none, some, String,
  if◌then◌else◌, keep, first, count, is_some,
}
use market_quorum.Prelude.Table.{Table, lookup, insert}
use market_quorum.Prelude.Sorted.{key_lt, order_by}
use market_quorum.Prelude.Text.{Text}
use market_quorum.Prelude.Json.{Fields, obj, num, str, field, end}
use market_quorum.DataReadiness.{has_come}
use market_quorum.Worker.{null_first}
use market_quorum.Webhooks.{
  Webhook, StoredEvent, WebhookDelivery, pending, delivering, Outbox, is_pending, is_delivering,
  is_active_status,
}
use market_quorum.Webhooks.Delivery.{DeliveryAttempt, minutes}

-- `next_attempt_at <= now`, which fails where the time is missing.
abbrev pub has_passed : ℕ → Option ℕ → Bool
has_passed now none = false
has_passed now (some t) = leb t now

abbrev pub claim_expired : ℕ → WebhookDelivery → Bool
claim_expired now d = is_delivering d.status && has_passed now d.next_attempt_at

abbrev pub recovered_delivery : ℕ → WebhookDelivery → WebhookDelivery
recovered_delivery now d =
    if claim_expired now d then record d { status = pending; next_attempt_at = some now } else d

abbrev pub recover_each : ℕ → Table WebhookDelivery → Table WebhookDelivery
recover_each now [] = []
recover_each now ((id, d) ∷ ds) = (id, recovered_delivery now d) ∷ recover_each now ds

unfoldable pub recover_expired_claims : ℕ → Outbox → ℕ × Outbox
recover_expired_claims now box = (
  count (λ (_, d). claim_expired now d) box.deliveries,
  record box { deliveries = recover_each now box.deliveries },
)

pub record ClaimedDelivery : Type 0 where
  pub delivery_id : ℕ
  pub event_id : ℕ
  pub attempt : ℕ
  pub endpoint : Text
  pub encrypted_secret : String
  pub payload : Fields

-- How the standard library writes an identifier and a time.
pub record Texts : Type 0 where
  pub uuid : ℕ → String
  pub isoformat : ℕ → String

-- An event type as the text that it is.
abbrev pub joined : List String → String
joined [] = ""
joined (s ∷ []) = s
joined (s ∷ t ∷ ts) = append s (append "." (joined (t ∷ ts)))

abbrev pub event_payload : Texts → ℕ → StoredEvent → Fields
event_payload texts id e = field "id" (str (texts.uuid id)) (
    field "type" (str (joined e.event.event_type)) (
      field "created_at" (str (texts.isoformat e.created_at)) (
        field "run_id" (str (texts.uuid e.event.run_id))
          (field "sequence" (num e.event.sequence) (field "data" (obj e.event.payload_json) end)))))

abbrev pub is_active_hook : Option Webhook → Bool
is_active_hook none = false
is_active_hook (some webhook) = is_active_status webhook.status

-- `webhook_claim_statement`, and that nobody has locked the row.
abbrev pub is_deliverable : (ℕ → Bool) → ℕ → Outbox → ℕ × WebhookDelivery → Bool
is_deliverable is_locked now box (id, d) =
    is_pending d.status
    && has_come now d.next_attempt_at
    && is_active_hook (lookup d.webhook_id box.webhooks)
    && is_some (lookup d.event_id box.events)
    && not (is_locked id)

abbrev pub claim_lt : ℕ × WebhookDelivery → ℕ × WebhookDelivery → Bool
claim_lt (i, d) (j, e) =
    ltb (null_first d.next_attempt_at) (null_first e.next_attempt_at)
    || (null_first d.next_attempt_at == null_first e.next_attempt_at
        && key_lt (d.created_at, i) (e.created_at, j))

unfoldable pub next_delivery : (ℕ → Bool) → ℕ → Outbox → Option (ℕ × WebhookDelivery)
unfolding order_by
next_delivery is_locked now box =
    first (order_by claim_lt (keep (is_deliverable is_locked now box) box.deliveries))

abbrev pub delivering_until : ℕ → WebhookDelivery → WebhookDelivery
delivering_until until d = record d {
  status = delivering;
  attempt = d.attempt + 1;
  next_attempt_at = some until;
}

abbrev pub save_delivery : ℕ → WebhookDelivery → Outbox → Outbox
save_delivery id d box = record box { deliveries = insert id d box.deliveries }

abbrev pub claimed_delivery : Texts → ℕ → WebhookDelivery → Webhook → StoredEvent → ClaimedDelivery
claimed_delivery texts id d webhook event = record {
  delivery_id = id;
  event_id = d.event_id;
  attempt = d.attempt + 1;
  endpoint = webhook.endpoint;
  encrypted_secret = webhook.encrypted_secret;
  payload = event_payload texts d.event_id event;
}

-- The row with the two rows that it is joined with.
abbrev pub claim_joined :
    Texts
    → ℕ
    → ℕ × WebhookDelivery
    → Option Webhook
    → Option StoredEvent
    → Outbox
    → Option ClaimedDelivery × Outbox
claim_joined texts now row none event box = (none, box)
claim_joined texts now row (some webhook) none box = (none, box)
claim_joined texts now (id, d) (some webhook) (some event) box = (
  some (claimed_delivery texts id d webhook event),
  save_delivery id (delivering_until (now + minutes 5) d) box,
)

abbrev pub claim_row :
    Texts → ℕ → Option (ℕ × WebhookDelivery) → Outbox → Option ClaimedDelivery × Outbox
claim_row texts now none box = (none, box)
claim_row texts now (some (id, d)) box =
    claim_joined texts now (id, d) (lookup d.webhook_id box.webhooks) (lookup d.event_id box.events)
      box

unfoldable pub claim : Texts → (ℕ → Bool) → ℕ → Outbox → Option ClaimedDelivery × Outbox
unfolding next_delivery
claim texts is_locked now box = claim_row texts now (next_delivery is_locked now box) box

abbrev pub is_held_claim : ClaimedDelivery → WebhookDelivery → Bool
is_held_claim claimed d = is_delivering d.status && d.attempt == claimed.attempt

abbrev pub completed : DeliveryAttempt → WebhookDelivery → WebhookDelivery
completed result d = record d {
  status = result.status;
  response_code = result.response_code;
  next_attempt_at = result.next_attempt_at;
}

abbrev pub complete_row :
    ClaimedDelivery → DeliveryAttempt → Option WebhookDelivery → Outbox → Outbox
complete_row claimed result none box = box
complete_row claimed result (some d) box =
    if is_held_claim claimed d
    then save_delivery claimed.delivery_id (completed result d) box
    else box

unfoldable pub complete : ClaimedDelivery → DeliveryAttempt → Outbox → Outbox
complete claimed result box =
    complete_row claimed result (lookup claimed.delivery_id box.deliveries) box
