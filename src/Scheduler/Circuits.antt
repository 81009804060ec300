-- ===== src/Scheduler/Circuits.antt =====
-- platform/src/tradingng_platform/scheduler/circuits.py: circuit breakers of the gateway and of
-- the data vendors. Times count microseconds. A row's primary key and its `created_at` are left
-- out: nothing reads them.
pub mod Probes
pub mod Naming
pub mod Rows
pub mod Backoff
pub mod Exclusion
pub mod Held
pub mod Growth
use market_quorum.Prelude.{
  ℕ, ◌+◌, ◌*◌, min, Bool, true, false, not, ◌&&◌, ◌||◌, List, [], ◌∷◌, ◌++◌, Option, none, some,
  String, ltb, leb, if◌then◌else◌, count, map, keep, get_or_else,
}
use market_quorum.Prelude.Text.{Text, codes, text_eq, text_lt, starts_with, after, has_char}
use market_quorum.Prelude.Json.{Fields}
use market_quorum.Prelude.Sorted.{order_by}
use market_quorum.Scheduler.Policy.{GatewaySnapshot}

pub data BreakerStatus : Type 0 where
  closed opened half_open : BreakerStatus

-- models/execution.py
pub record CircuitBreaker : Type 0 where
  pub name : Text
  pub status : BreakerStatus
  pub failure_count : ℕ
  pub opened_until : Option ℕ
  pub backoff_seconds : ℕ
  pub last_error_code : Option String

pub record GatewayHealthSample : Type 0 where
  pub sampled_at : ℕ
  pub healthy : Bool
  pub latency_ms : ℕ
  pub detail_json : Fields
  pub active_completions : ℕ
  pub model : Option String
  pub reasoning_effort : Option String
  pub snapshot_id : Option String

pub record VendorHealthSample : Type 0 where
  pub sampled_at : ℕ
  pub healthy : Bool
  pub latency_ms : ℕ
  pub detail_json : Fields
  pub vendor : Text
  pub category : Text

-- The tables that the repository reads and writes.
pub record Circuits : Type 0 where
  pub breakers : List CircuitBreaker
  pub gateway_samples : List GatewayHealthSample
  pub vendor_samples : List VendorHealthSample

abbrev pub seconds : ℕ → ℕ
seconds n = n * 1_000_000

abbrev pub failure_window : ℕ
failure_window = seconds 60

abbrev pub failures_to_open : ℕ
failures_to_open = 3

abbrev pub initial_backoff_seconds : ℕ
initial_backoff_seconds = 300

abbrev pub max_backoff_seconds : ℕ
max_backoff_seconds = 1800

-- The unhealthy branch of `_apply_sample`, by the breaker's status.
unfoldable pub apply_failure : BreakerStatus → CircuitBreaker → ℕ → ℕ → CircuitBreaker
apply_failure half_open b failures now =
    let backoff = min (b.backoff_seconds * 2) max_backoff_seconds in
    record b {
      backoff_seconds = backoff;
      status = opened;
      opened_until = some (now + seconds backoff);
    }
apply_failure closed b failures now =
    if leb failures_to_open failures
    then record b { status = opened; opened_until = some (now + seconds b.backoff_seconds) }
    else b
apply_failure opened b failures now = b

-- The healthy branch.
unfoldable pub apply_success : BreakerStatus → CircuitBreaker → CircuitBreaker
apply_success half_open b = record b {
  status = closed;
  failure_count = 0;
  opened_until = none;
  backoff_seconds = initial_backoff_seconds;
  last_error_code = none;
}
apply_success closed b = b
apply_success opened b = b

unfoldable pub apply_sample : CircuitBreaker → Bool → ℕ → Option String → ℕ → CircuitBreaker
unfolding apply_failure apply_success
apply_sample b true failures error_code now = apply_success b.status b
apply_sample b false failures error_code now =
    apply_failure b.status (record b { failure_count = failures; last_error_code = error_code })
      failures now

unfoldable pub find_breaker : Text → List CircuitBreaker → Option CircuitBreaker
find_breaker name [] = none
find_breaker name (b ∷ bs) = if text_eq b.name name then some b else find_breaker name bs

-- Writes the row with the breaker's name.
unfoldable pub save_breaker : CircuitBreaker → List CircuitBreaker → List CircuitBreaker
save_breaker b [] = []
save_breaker b (c ∷ cs) =
    let rest = save_breaker b cs in if text_eq c.name b.name then b ∷ cs else c ∷ rest

abbrev pub seed_breaker : Text → CircuitBreaker
seed_breaker n = record {
  name = n;
  status = closed;
  failure_count = 0;
  opened_until = none;
  backoff_seconds = initial_backoff_seconds;
  last_error_code = none;
}

-- `insert_ignore` of a closed breaker, on the unique column `name`.
unfoldable pub seeded : Text → List CircuitBreaker → List CircuitBreaker
unfolding find_breaker
seeded name bs = elim (find_breaker name bs) [ none ↦ bs ++ seed_breaker name ∷ [] | some _ ↦ bs ]

-- The breaker, and the table with its row; `none` is "circuit breaker seed is not visible".
unfoldable pub locked_breaker :
    Text → List CircuitBreaker → Option (CircuitBreaker × List CircuitBreaker)
unfolding seeded find_breaker
locked_breaker name bs = elim (find_breaker name (seeded name bs)) [
  | none ↦ none
  | some b ↦ some (b, seeded name bs)
]

abbrev pub in_window : ℕ → ℕ → Bool → Bool
in_window now sampled_at healthy =
    leb now (sampled_at + failure_window) && leb sampled_at now && not healthy

unfoldable pub gateway_failures : ℕ → List GatewayHealthSample → ℕ
gateway_failures now = count (λ s. in_window now s.sampled_at s.healthy)

unfoldable pub vendor_failures : ℕ → Text → Text → List VendorHealthSample → ℕ
vendor_failures now vendor category = count (λ s.
    text_eq s.vendor vendor && text_eq s.category category && in_window now s.sampled_at s.healthy)

abbrev pub gateway_name : Text
gateway_name = codes "gateway"

abbrev pub colon : ℕ
colon = b':'

abbrev pub vendor_prefix : Text
vendor_prefix = codes "vendor:"

-- f"vendor:{category}:{vendor}"
unfoldable pub vendor_name : Text → Text → Text
vendor_name category vendor = vendor_prefix ++ (category ++ colon ∷ vendor)

abbrev apply_locked :
    Bool
    → ℕ
    → Option String
    → ℕ
    → Circuits
    → Option (CircuitBreaker × List CircuitBreaker)
    → Option (CircuitBreaker × Circuits)
apply_locked healthy failures error_code now c none = none
apply_locked healthy failures error_code now c (some (b, bs)) =
    let b' = apply_sample b healthy failures error_code now in
    some (b', record c { breakers = save_breaker b' bs })

abbrev pub snapshot_sample : Bool → ℕ → Fields → ℕ → Option GatewaySnapshot → GatewayHealthSample
snapshot_sample healthy latency_ms detail now none = record {
  sampled_at = now;
  healthy = healthy;
  latency_ms = latency_ms;
  detail_json = detail;
  active_completions = 0;
  model = none;
  reasoning_effort = none;
  snapshot_id = none;
}
snapshot_sample healthy latency_ms detail now (some g) = record {
  sampled_at = now;
  healthy = healthy;
  latency_ms = latency_ms;
  detail_json = detail;
  active_completions = g.active_completions;
  model = some g.model;
  reasoning_effort = some g.reasoning_effort;
  snapshot_id = some g.snapshot_id;
}

abbrev pub vendor_sample : Text → Text → Bool → ℕ → Fields → ℕ → VendorHealthSample
vendor_sample vendor category healthy latency_ms detail now = record {
  sampled_at = now;
  healthy = healthy;
  latency_ms = latency_ms;
  detail_json = detail;
  vendor = vendor;
  category = category;
}

-- The sample is flushed before the failures are counted.
unfoldable pub record_gateway_sample :
    Bool
    → ℕ
    → Fields
    → ℕ
    → Option String
    → Option GatewaySnapshot
    → Circuits
    → Option (CircuitBreaker × Circuits)
unfolding apply_sample locked_breaker save_breaker gateway_failures
record_gateway_sample healthy latency_ms detail now error_code snapshot c =
    let samples =
      c.gateway_samples ++ snapshot_sample healthy latency_ms detail now snapshot ∷ [] in
    apply_locked healthy (gateway_failures now samples) error_code now
      (record c { gateway_samples = samples }) (locked_breaker gateway_name c.breakers)

unfoldable pub record_vendor_sample :
    Text
    → Text
    → Bool
    → ℕ
    → Fields
    → ℕ
    → Option String
    → Circuits
    → Option (CircuitBreaker × Circuits)
unfolding apply_sample locked_breaker save_breaker vendor_failures vendor_name
record_vendor_sample vendor category healthy latency_ms detail now error_code c =
    let samples =
      c.vendor_samples ++ vendor_sample vendor category healthy latency_ms detail now ∷ [] in
    apply_locked healthy (vendor_failures now vendor category samples) error_code now
      (record c { vendor_samples = samples })
      (locked_breaker (vendor_name category vendor) c.breakers)
