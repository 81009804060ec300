-- ===== src/Tests/Posting.antt =====
-- Deliveries of one event to two webhooks.
use market_quorum.Prelude.{
  ℕ, ◌+◌, ◌<◌, ◌≤◌, ◌≡◌, refl, ◌↔◌, true, false, [], ◌∷◌, Option, none, some, max, arith, leb,
  if◌then◌else◌,
}
use market_quorum.Prelude.Table.{Table, lookup}
use market_quorum.Prelude.Text.{Text, codes, text_eq}
use market_quorum.Prelude.Json.{end}
use market_quorum.Webhooks.{
  Webhook, WebhookDelivery, StoredEvent, Outbox, active, disabled, pending, delivering,
}
use market_quorum.Webhooks.Endpoint.{
  Url, Address, Network, accepted, rejected, non_public, validate_endpoint, IsSafe,
  validate_endpoint-accepted_iff,
}
use market_quorum.Webhooks.Enqueue.{NewId, enqueue_missing}
use market_quorum.Webhooks.Queue.{
  Texts, event_payload, ClaimedDelivery, claim, complete, recover_expired_claims,
}
use market_quorum.Webhooks.Delivery.{final_attempt}
use market_quorum.Webhooks.Pairs.{IsPaired, deliveries_of}
use market_quorum.Webhooks.Subscribed.{enqueue_missing-once}
use market_quorum.Webhooks.Keys.{IsFresh}
use market_quorum.Webhooks.Rounds.{start, later, recovers, claims_grow}
use market_quorum.Webhooks.Run.{Settings, run_once}
use market_quorum.Webhooks.Returned.{HasReturned, prepared, run_once-HasReturned}

abbrev hook : Webhook
hook = record {
  owner_id = 1;
  endpoint = codes "https://hooks.example";
  event_types_json = ("assessment" ∷ "queued" ∷ []) ∷ [];
  encrypted_secret = "sealed";
  status = active;
}

abbrev event : StoredEvent
event = record {
  event = record {
    run_id = 11;
    sequence = 1;
    event_type = "assessment" ∷ "queued" ∷ [];
    payload_json = end;
  };
  created_at = 5;
}

abbrev box : Outbox
box = record {
  webhooks = (1, record hook { status = disabled }) ∷ (2, hook) ∷ [];
  events = (7, event) ∷ [];
  deliveries = [];
}

abbrev url : Url
url = record {
  scheme = codes "https";
  host = codes "Hooks.Example.";
  port = none;
  userinfo = [];
  fragment = [];
}

abbrev public_address : Address
public_address = record {
  is_global = true;
  is_private = false;
  is_loopback = false;
  is_link_local = false;
  is_multicast = false;
}

abbrev lower_code : ℕ → ℕ
lower_code c = if leb 65 c then if leb c 90 then c + 32 else c else c

abbrev lower : Text → Text
lower [] = []
lower (c ∷ cs) = lower_code c ∷ lower cs

abbrev network : Network
network = record {
  parse_url = λ endpoint. some url;
  lower = lower;
  resolver = λ host port.
      if text_eq host (codes "hooks.example") then some (public_address ∷ []) else none;
}

validate_endpoint-accepted_iff_example :
    (validate_endpoint network [] (codes "https://hooks.example") ≡ accepted url)
    ↔ ((network.parse_url (codes "https://hooks.example") ≡ some url) × IsSafe network [] url)
validate_endpoint-accepted_iff_example =
    validate_endpoint-accepted_iff network [] (codes "https://hooks.example") url

private_rejected :
    validate_endpoint
      (record network {
        resolver = λ host port. some (record public_address { is_loopback = true } ∷ []);
      })
      []
      (codes "https://hooks.example")
    ≡ rejected non_public
unfolding validate_endpoint text_eq
private_rejected = refl

-- One more than the greatest key.
abbrev new_id : NewId
new_id [] = 1
new_id ((id, d) ∷ ds) = max (id + 1) (new_id ds)

above_keys : (k : ℕ) (ds : Table WebhookDelivery) → new_id ds ≤ k → lookup k ds ≡ none
above_keys k [] h = refl
above_keys k ((j, d) ∷ ds) h = ground (arith, above_keys k ds)

new_id-IsFresh : IsFresh new_id
new_id-IsFresh ds = above_keys (new_id ds) ds (omega arith)

no_pairs : IsPaired []
unfolding deliveries_of
no_pairs w e = omega arith

enqueue_missing-once_example :
    IsPaired (enqueue_missing new_id 10 100 box).1.deliveries
    × (deliveries_of 2 7 (enqueue_missing new_id 10 100 box).1.deliveries ≡ 1)
enqueue_missing-once_example =
    enqueue_missing-once new_id 10 100 box 2 7 hook event no_pairs (omega arith) refl refl refl refl

abbrev texts : Texts
texts = record { uuid = λ id. "id"; isoformat = λ t. "2024-10-04" }

abbrev row : WebhookDelivery
row = record {
  webhook_id = 2;
  event_id = 7;
  attempt = 0;
  status = pending;
  response_code = none;
  next_attempt_at = none;
  created_at = 10;
}

abbrev filled : Outbox
filled = record box { deliveries = (1, row) ∷ [] }

enqueued : (enqueue_missing new_id 10 100 box).1 ≡ filled
unfolding enqueue_missing
enqueued = refl

abbrev claimed : ℕ → ClaimedDelivery
claimed n = record {
  delivery_id = 1;
  event_id = 7;
  attempt = n;
  endpoint = codes "https://hooks.example";
  encrypted_secret = "sealed";
  payload = event_payload texts 7 event;
}

abbrev taken : ℕ → ℕ → Outbox
taken n until = record box {
  deliveries =
      (1, record row { attempt = n; status = delivering; next_attempt_at = some until }) ∷ [];
}

first_claim : claim texts (λ _. false) 10 filled ≡ (some (claimed 1), taken 1 300000010)
unfolding claim
first_claim = refl

-- The claim runs out at 300000010.
second_claim :
    claim texts (λ _. false) 400000000 (recover_expired_claims 400000000 (taken 1 300000010)).1
    ≡ (some (claimed 2), taken 2 700000000)
unfolding claim recover_expired_claims
second_claim = refl

claims_grow_example :
    (1 < 2)
    × (complete (claimed 1) (final_attempt pending none) (taken 2 700000000) ≡ taken 2 700000000)
claims_grow_example =
    claims_grow {new_id = new_id} {claimed = claimed 1} {claimed' = claimed 2} filled
      (taken 1 300000010) _ (taken 2 700000000) texts texts (λ _. false) (λ _. false) 10 400000000
      (final_attempt pending none) (refl, tt) new_id-IsFresh first_claim
      (later start (recovers 400000000)) second_claim refl

abbrev settings : Option ℕ → Settings
settings code = record {
  network = network;
  allowlist = [];
  client = λ post. code;
  decrypt = λ sealed. some "secret";
  texts = texts;
  new_id = new_id;
}

run_once-HasReturned_example :
    HasReturned 10 box
      (prepared (settings (some 503)) 10 box)
      (run_once (settings (some 503)) 10 (λ _. false) box)
run_once-HasReturned_example =
    run_once-HasReturned (settings (some 503)) 10 (λ _. false) box tt new_id-IsFresh

-- A service that is unavailable is asked again in a minute.
unavailable :
    (run_once (settings (some 503)) 10 (λ _. false) box).1.deliveries
    ≡ (1, record row { attempt = 1; response_code = some 503; next_attempt_at = some 60000010 })
      ∷ []
unfolding run_once validate_endpoint text_eq
unavailable = refl
