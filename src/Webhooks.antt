-- ===== src/Webhooks.antt =====
-- platform/src/tradingng_platform/webhooks: the deliveries of run events to endpoints. A worker enqueues
-- the deliveries that are missing, claims one that is due, posts it and completes the claim.
pub mod Endpoint
pub mod Delivery
pub mod Enqueue
pub mod Queue
pub mod Run
pub mod Phases
pub mod Claiming
pub mod Keys
pub mod Rounds
pub mod Returned
pub mod Pairs
pub mod Subscribed
use market_quorum.Prelude.{ℕ, Bool, true, false, ◌&&◌, List, [], ◌∷◌, Option, String, str_eq}
use market_quorum.Prelude.Table.{Table}
use market_quorum.Prelude.Text.{Text}
use market_quorum.Store.{RunEvent}

-- models/webhooks.py
pub data WebhookStatus : Type 0 where
  active disabled : WebhookStatus

pub record Webhook : Type 0 where
  pub owner_id : ℕ
  pub endpoint : Text
  pub event_types_json : List (List String)
  pub encrypted_secret : String
  pub status : WebhookStatus

pub data DeliveryStatus : Type 0 where
  pending delivering delivered failed : DeliveryStatus

pub record WebhookDelivery : Type 0 where
  pub webhook_id : ℕ
  pub event_id : ℕ
  pub attempt : ℕ
  pub status : DeliveryStatus
  pub response_code : Option ℕ
  pub next_attempt_at : Option ℕ
  pub created_at : ℕ

-- A row of the table of run events, with the time of its creation.
pub record StoredEvent : Type 0 where
  pub event : RunEvent
  pub created_at : ℕ

pub record Outbox : Type 0 where
  pub webhooks : Table Webhook
  pub events : Table StoredEvent
  pub deliveries : Table WebhookDelivery

abbrev pub type_eq : List String → List String → Bool
type_eq [] [] = true
type_eq [] (t ∷ ts) = false
type_eq (s ∷ ss) [] = false
type_eq (s ∷ ss) (t ∷ ts) = str_eq s t && type_eq ss ts

abbrev pub is_pending : DeliveryStatus → Bool
is_pending pending = true
is_pending _ = false

abbrev pub is_delivering : DeliveryStatus → Bool
is_delivering delivering = true
is_delivering _ = false

abbrev pub is_active_status : WebhookStatus → Bool
is_active_status active = true
is_active_status disabled = false
