-- ===== src/Webhooks/Run.antt =====
-- `run_once` of WebhookDeliveryWorker in webhooks/worker.py: its four transactions and the post
-- between them. Another worker's transactions come between those of two workers.
use market_quorum.Prelude.{ℕ, Bool, true, false, List, Option, none, some, String}
use market_quorum.Prelude.Text.{Text}
use market_quorum.Store.Tx.{Result, ok, err}
use market_quorum.Webhooks.{Outbox, failed}
use market_quorum.Webhooks.Endpoint.{Network}
use market_quorum.Webhooks.Delivery.{DeliveryAttempt, Client, final_attempt, deliver_webhook}
use market_quorum.Webhooks.Enqueue.{NewId, enqueue_missing}
use market_quorum.Webhooks.Queue.{Texts, ClaimedDelivery, recover_expired_claims, claim, complete}

-- What the worker is made with. `decrypt` is that of the cipher, `none` where it raises; the
-- payload is made of the event's row.
pub record Settings : Type 0 where
  pub network : Network
  pub allowlist : List Text
  pub client : Client
  pub decrypt : String → Option String
  pub texts : Texts
  pub new_id : NewId

module _ (w : Settings) (now : ℕ) where
  abbrev pub attempt_with : ClaimedDelivery → Option String → Result DeliveryAttempt
  attempt_with claimed none = ok (final_attempt failed none)
  attempt_with claimed (some secret) =
      deliver_webhook w.network w.allowlist w.client claimed.endpoint claimed.event_id secret
        claimed.payload claimed.attempt now

  abbrev pub complete_with :
      ClaimedDelivery → Result DeliveryAttempt → Outbox → Result Bool × Outbox
  complete_with claimed (err e) box = (err e, box)
  complete_with claimed (ok result) box = (ok true, complete claimed result box)

  abbrev pub deliver_claimed : Option ClaimedDelivery × Outbox → Result Bool × Outbox
  deliver_claimed (none, box) = (ok false, box)
  deliver_claimed (some claimed, box) =
      complete_with claimed (attempt_with claimed (w.decrypt claimed.encrypted_secret)) box

  -- The transactions before an error have been committed.
  unfoldable pub run_once : (ℕ → Bool) → Outbox → Result Bool × Outbox
  unfolding enqueue_missing recover_expired_claims claim complete deliver_webhook
  run_once is_locked box =
      let recovered = (recover_expired_claims now box).1 in
      let enqueued = (enqueue_missing w.new_id now 100 recovered).1 in
      deliver_claimed (claim w.texts is_locked now enqueued)
