-- ===== src/Scheduler/Circuits/Growth.antt =====
-- When a circuit of scheduler/circuits.py opens, and how its back-off grows from probe to probe.
use native.Mathlib.Nat.{pow-suc}
use market_quorum.Prelude.{
  ℕ, suc, ◌+◌, ◌*◌, ◌^◌, ◌≤◌, ◌≡◌, refl, ap, ◌↔◌, ◌∙◌, ◌++◌, min, false, List, [], ◌∷◌, Option,
  some, String, arith, length,
}
use market_quorum.Prelude.Json.{Fields}
use market_quorum.Scheduler.Policy.{GatewaySnapshot}
use market_quorum.Scheduler.Circuits.{
  closed, opened, CircuitBreaker, Circuits, apply_sample, gateway_name, gateway_failures,
  record_gateway_sample,
}
use market_quorum.Scheduler.Circuits.Probes.{half_opened}
use market_quorum.Scheduler.Circuits.Rows.{row}
use market_quorum.Scheduler.Circuits.Backoff.{IsSound, record_gateway_sample_lem}
use market_quorum.Prelude.{All}

closed-failure :
    (b : CircuitBreaker) (failures : ℕ) (error_code : Option String) (now : ℕ)
    → b.status ≡ closed
    → ((apply_sample b false (failures + 1) error_code now).status ≡ opened) ↔ (2 ≤ failures)
unfolding apply_sample
closed-failure b failures error_code now h = (λ e. ground arith, λ e. ground arith)

-- Where the circuits are sound and the gateway's is closed, a failed sample of the gateway opens
-- it exactly when at least two earlier failed samples lie within the last minute.
pub gateway-opens_iff :
    (latency_ms : ℕ) (detail : Fields) (now : ℕ) (error_code : Option String)
    (snapshot : Option GatewaySnapshot) (c : Circuits) {b : CircuitBreaker} {c' : Circuits}
    → All IsSound c.breakers
    → (row gateway_name c.breakers).status ≡ closed
    → record_gateway_sample false latency_ms detail now error_code snapshot c ≡ some (b, c')
    → (b.status ≡ opened) ↔ (2 ≤ gateway_failures now c.gateway_samples)
gateway-opens_iff latency_ms detail now error_code snapshot c {b} {c'} h e r =
    let recorded = record_gateway_sample_lem false latency_ms detail now error_code snapshot c h in
    let same : apply_sample (row gateway_name c.breakers) false
          (gateway_failures now c.gateway_samples + 1) error_code now
        ≡ b =
      ground (arith, recorded.returned) in
    rw (← same) (
      closed-failure (row gateway_name c.breakers) (gateway_failures now c.gateway_samples)
        error_code now e)

-- A run of probes that all fail: each finds the circuit half-open.
abbrev pub fail_probes : CircuitBreaker → List (ℕ × Option String × ℕ) → CircuitBreaker
fail_probes b [] = b
fail_probes b ((failures, error_code, now) ∷ ps) =
    fail_probes (apply_sample (half_opened b) false failures error_code now) ps

apply_sample-half_opened :
    (b : CircuitBreaker) (failures : ℕ) (error_code : Option String) (now : ℕ)
    → (apply_sample (half_opened b) false failures error_code now).backoff_seconds
      ≡ min (b.backoff_seconds * 2) 1800
unfolding apply_sample
apply_sample-half_opened b failures error_code now = refl

fail_probes-from :
    (k j : ℕ) (b : CircuitBreaker) (ps : List (ℕ × Option String × ℕ))
    → k + length ps ≡ j
    → b.backoff_seconds ≡ min (300 * 2 ^ k) 1800
    → (fail_probes b ps).backoff_seconds ≡ min (300 * 2 ^ j) 1800
fail_probes-from k j b [] q e = let q' : k ≡ j = omega arith in rw (← q') e
fail_probes-from k j b ((failures, error_code, now) ∷ ps) q e =
    fail_probes-from (suc k) j (apply_sample (half_opened b) false failures error_code now) ps
      (omega arith)
      (apply_sample-half_opened b failures error_code now ∙ omega (arith, pow-suc 2 k))

fail_probes-append :
    (b : CircuitBreaker) (ps : List (ℕ × Option String × ℕ)) (failures : ℕ)
    (error_code : Option String) (now : ℕ)
    → fail_probes b (ps ++ (failures, error_code, now) ∷ [])
      ≡ apply_sample (half_opened (fail_probes b ps)) false failures error_code now
fail_probes-append b [] failures error_code now = refl
fail_probes-append b ((f, e, t) ∷ ps) failures error_code now =
    fail_probes-append (apply_sample (half_opened b) false f e t) ps failures error_code now

-- The circuit is open and no probe is due before the back-off has passed.
pub record Waits (from backoff : ℕ) (b : CircuitBreaker) : Type 0 where
  pub status : b.status ≡ opened
  pub until : b.opened_until ≡ some (from + backoff * 1000000)
  pub backoff_seconds : b.backoff_seconds ≡ backoff

failed-Waits :
    (b : CircuitBreaker) (failures : ℕ) (error_code : Option String) (now backoff : ℕ)
    → min (b.backoff_seconds * 2) 1800 ≡ backoff
    → Waits now backoff (apply_sample (half_opened b) false failures error_code now)
unfolding apply_sample
failed-Waits b failures error_code now backoff e = record {
  status = refl;
  until = ap (λ n. some (now + n * 1000000)) e;
  backoff_seconds = e;
}

-- A circuit that has the initial back-off and of which k probes in a row fail, at least one, is
-- open until five minutes times two to the k, or thirty minutes where that is less, have passed
-- since the last of them, and has that back-off.
pub fail_probes-Waits :
    (b : CircuitBreaker) (ps : List (ℕ × Option String × ℕ)) (failures : ℕ)
    (error_code : Option String) (now : ℕ)
    → b.backoff_seconds ≡ 300
    → Waits now
        (min (300 * 2 ^ suc (length ps)) 1800)
        (fail_probes b (ps ++ (failures, error_code, now) ∷ []))
fail_probes-Waits b ps failures error_code now e =
    let k = length ps in
    let before : (fail_probes b ps).backoff_seconds ≡ min (300 * 2 ^ k) 1800 =
      fail_probes-from 0 k b ps (omega arith) (omega arith) in
    rw (fail_probes-append b ps failures error_code now) (
      failed-Waits (fail_probes b ps) failures error_code now (min (300 * 2 ^ suc k) 1800)
        (omega (arith, before, pow-suc 2 k)))
