-- ===== src/Webhooks/Delivery.antt =====
-- `next_retry_at` and `deliver_webhook` of webhooks/worker.py: one attempt of a delivery.
use market_quorum.Prelude.{
  ℕ, suc, zero, ◌+◌, ◌*◌, ◌-◌, ◌/◌, ◌≤◌, ◌<◌, ltb, leb, ◌==◌, ◌≡◌, refl, ◌&&◌, ◌||◌, List, [], ◌∷◌,
  Option, none, some, String, arith, if◌then◌else◌, inl, inr, ◌⊎◌, Bool-cases,
}
use market_quorum.Prelude.Text.{Text}
use market_quorum.Prelude.Json.{Fields}
use market_quorum.Store.Tx.{Result, ok, err, value_error}
use market_quorum.Scheduler.Circuits.{seconds}
use market_quorum.Webhooks.{DeliveryStatus, pending, delivered, failed}
use market_quorum.Webhooks.Endpoint.{Network, Url, Validated, accepted, rejected, validate_endpoint}

abbrev pub retry_minutes : List ℕ
retry_minutes = 1 ∷ 5 ∷ 15 ∷ 60 ∷ 240 ∷ []

abbrev pub max_attempts : ℕ
max_attempts = 5

abbrev pub minutes : ℕ → ℕ
minutes n = seconds (60 * n)

-- `retry_minutes[index]`, with an index in range.
abbrev pub minutes_at : List ℕ → ℕ → ℕ
minutes_at [] i = 0
minutes_at (m ∷ ms) zero = m
minutes_at (m ∷ ms) (suc i) = minutes_at ms i

unfoldable pub next_retry_at : ℕ → ℕ → Result (Option ℕ)
next_retry_at attempt now =
    if ltb attempt 1
    then err (value_error "delivery attempt must be positive")
    else if leb max_attempts attempt
    then ok none
    else ok (some (now + minutes (minutes_at retry_minutes (attempt - 1))))

pub record DeliveryAttempt : Type 0 where
  pub status : DeliveryStatus
  pub response_code : Option ℕ
  pub next_attempt_at : Option ℕ

-- What is posted; the signature's headers and the body are made from it.
pub record Post : Type 0 where
  pub url : Url
  pub event_id : ℕ
  pub secret : String
  pub payload : Fields
  pub timestamp : ℕ

-- The client's answer: the status code, or `none` for `httpx.HTTPError`.
abbrev pub Client : Type 0
Client = Post → Option ℕ

abbrev pub retry_status : Option ℕ → DeliveryStatus
retry_status none = failed
retry_status (some t) = pending

abbrev pub retried : Option ℕ → Option ℕ → DeliveryAttempt
retried code retry_at = record {
  status = retry_status retry_at;
  response_code = code;
  next_attempt_at = retry_at;
}

abbrev pub retry_later : Option ℕ → Result (Option ℕ) → Result DeliveryAttempt
retry_later code (ok retry_at) = ok (retried code retry_at)
retry_later code (err e) = err e

abbrev pub final_attempt : DeliveryStatus → Option ℕ → DeliveryAttempt
final_attempt status code = record { status = status; response_code = code; next_attempt_at = none }

abbrev pub read_answer : ℕ → ℕ → Option ℕ → Result DeliveryAttempt
read_answer attempt now none = retry_later none (next_retry_at attempt now)
read_answer attempt now (some code) =
    if leb 200 code && ltb code 300
    then ok (final_attempt delivered (some code))
    else if code == 429 || leb 500 code
    then retry_later (some code) (next_retry_at attempt now)
    else ok (final_attempt failed (some code))

abbrev pub post_of : Url → ℕ → String → Fields → ℕ → Post
post_of url event_id secret payload now = record {
  url = url;
  event_id = event_id;
  secret = secret;
  payload = payload;
  timestamp = now / 1000000;
}

abbrev pub post_to : Client → ℕ → String → Fields → ℕ → ℕ → Validated → Result DeliveryAttempt
post_to client event_id secret payload attempt now (rejected e) = ok (final_attempt failed none)
post_to client event_id secret payload attempt now (accepted url) =
    read_answer attempt now (client (post_of url event_id secret payload now))

unfoldable pub deliver_webhook :
    Network → List Text → Client → Text → ℕ → String → Fields → ℕ → ℕ → Result DeliveryAttempt
unfolding next_retry_at
deliver_webhook net allowlist client endpoint event_id secret payload attempt now =
    post_to client event_id secret payload attempt now (validate_endpoint net allowlist endpoint)

-- An attempt ends the delivery, or leaves it pending until a later time, which only the first four
-- attempts do.
abbrev pub IsSettled : ℕ → ℕ → DeliveryAttempt → Type 0
IsSettled attempt now r =
    (r.status ≡ delivered) × (r.next_attempt_at ≡ none)
    ⊎ (r.status ≡ failed) × (r.next_attempt_at ≡ none)
    ⊎ (r.status ≡ pending)
      × (attempt < max_attempts)
      × (t : ℕ) × (r.next_attempt_at ≡ some t)
      × (now < t)

abbrev Settles : ℕ → ℕ → Result DeliveryAttempt → Type 0
Settles attempt now x = (r : DeliveryAttempt) × (x ≡ ok r) × IsSettled attempt now r

retry_later-Settles :
    (code : Option ℕ) (attempt now : ℕ)
    → 1 ≤ attempt
    → Settles attempt now (retry_later code (next_retry_at attempt now))
unfolding next_retry_at
retry_later-Settles code zero now h = absurd (omega arith)
retry_later-Settles code (suc zero) now h =
    (_, refl, inr (inr (refl, omega arith, _, refl, omega arith)))
retry_later-Settles code (suc (suc zero)) now h =
    (_, refl, inr (inr (refl, omega arith, _, refl, omega arith)))
retry_later-Settles code (suc (suc (suc zero))) now h =
    (_, refl, inr (inr (refl, omega arith, _, refl, omega arith)))
retry_later-Settles code (suc (suc (suc (suc zero)))) now h =
    (_, refl, inr (inr (refl, omega arith, _, refl, omega arith)))
retry_later-Settles code (suc (suc (suc (suc (suc n))))) now h =
    (final_attempt failed code, ground arith, inr (inl (refl, refl)))

read_answer-Settles :
    (attempt now : ℕ) (o : Option ℕ) → 1 ≤ attempt → Settles attempt now (read_answer attempt now o)
read_answer-Settles attempt now none h = retry_later-Settles none attempt now h
read_answer-Settles attempt now (some code) h = elim (Bool-cases (leb 200 code && ltb code 300)) [
  | inl good ↦ rw good (final_attempt delivered (some code), refl, inl (refl, refl))
  | inr bad ↦ elim (Bool-cases (code == 429 || leb 500 code)) [
    | inl again ↦ rw bad (rw again (retry_later-Settles (some code) attempt now h))
    | inr never ↦ rw bad (rw never (final_attempt failed (some code), refl, inr (inl (refl, refl))))
  ]
]

post_to-Settles :
    (client : Client) (event_id : ℕ) (secret : String) (payload : Fields) (attempt now : ℕ)
    (v : Validated)
    → 1 ≤ attempt
    → Settles attempt now (post_to client event_id secret payload attempt now v)
post_to-Settles client event_id secret payload attempt now (accepted url) h =
    read_answer-Settles attempt now (client (post_of url event_id secret payload now)) h
post_to-Settles client event_id secret payload attempt now (rejected e) h =
    (final_attempt failed none, refl, inr (inl (refl, refl)))

pub deliver_webhook-Settles :
    (net : Network) (allowlist : List Text) (client : Client) (endpoint : Text) (event_id : ℕ)
    (secret : String) (payload : Fields) (attempt now : ℕ)
    → 1 ≤ attempt
    → (r : DeliveryAttempt) × (deliver_webhook net allowlist client endpoint event_id secret payload
          attempt now
        ≡ ok r)
      × IsSettled attempt now r
unfolding deliver_webhook
deliver_webhook-Settles net allowlist client endpoint event_id secret payload attempt now h =
    post_to-Settles client event_id secret payload attempt now
      (validate_endpoint net allowlist endpoint) h
