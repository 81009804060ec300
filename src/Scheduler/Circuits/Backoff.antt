-- ===== src/Scheduler/Circuits/Backoff.antt =====
-- The back-off and the time of a circuit, and what `_apply_sample` of scheduler/circuits.py and the
-- recording of samples make of them.
use market_quorum.Prelude.{
  ℕ, ap, not, ◌+◌, ◌≤◌, ◌≡◌, Bool, true, false, List, [], ◌∷◌, ◌++◌, Option, some, String, arith,
  All, All-append, is_some, Option-cases, inl, inr, ◌∙◌, ◌≢◌, bit, count-append,
}
use market_quorum.Prelude.Text.{Text, text_eq_refl}
use market_quorum.Prelude.Json.{Fields}
use market_quorum.Scheduler.Policy.{GatewaySnapshot}
use market_quorum.Scheduler.Circuits.{
  BreakerStatus, closed, opened, half_open, CircuitBreaker, Circuits, apply_sample, find_breaker,
  save_breaker, seeded, locked_breaker, gateway_name, vendor_name, initial_backoff_seconds,
  max_backoff_seconds, record_gateway_sample, record_vendor_sample, gateway_failures, apply_locked,
  GatewayHealthSample, snapshot_sample, vendor_sample, VendorHealthSample, vendor_failures,
}
use market_quorum.Scheduler.Circuits.Probes.{half_opened}
use market_quorum.Scheduler.Circuits.Rows.{
  find_breaker-name, save_breaker-All, find_breaker-save, row, find_breaker-seeded-row,
  locked_breaker_lem, find_breaker-seeded_ne, find_breaker-save_ne,
}

abbrev is_opened : BreakerStatus → Bool
is_opened opened = true
is_opened closed = false
is_opened half_open = false

pub record IsSound (b : CircuitBreaker) : Type 0 where
  pub at_least : initial_backoff_seconds ≤ b.backoff_seconds
  pub at_most : b.backoff_seconds ≤ max_backoff_seconds
  pub timed : is_some b.opened_until ≡ is_opened b.status

pub apply_sample-IsSound :
    (b : CircuitBreaker) (healthy : Bool) (failures : ℕ) (error_code : Option String) (now : ℕ)
    → IsSound b
    → IsSound (apply_sample b healthy failures error_code now)
unfolding apply_sample
apply_sample-IsSound b healthy failures error_code now h = ground arith

pub half_opened-IsSound : (b : CircuitBreaker) → IsSound b → IsSound (half_opened b)
half_opened-IsSound b h = ground arith

pub apply_sample-name :
    (b : CircuitBreaker) (healthy : Bool) (failures : ℕ) (error_code : Option String) (now : ℕ)
    → (apply_sample b healthy failures error_code now).name ≡ b.name
unfolding apply_sample
apply_sample-name b healthy failures error_code now = ground arith

pub find_breaker-IsSound :
    (name : Text) (b : CircuitBreaker) (bs : List CircuitBreaker)
    → find_breaker name bs ≡ some b
    → All IsSound bs
    → IsSound b
unfolding find_breaker
find_breaker-IsSound name b [] e h = cc
find_breaker-IsSound name b (c ∷ bs) e h = ground (arith, find_breaker-IsSound name b bs)

seeded-All :
    (name : Text) (bs : List CircuitBreaker) → All IsSound bs → All IsSound (seeded name bs)
unfolding seeded
seeded-All name bs h = elim (Option-cases (find_breaker name bs)) [
  | inl missing ↦ rw (missing, seeded) (All-append IsSound bs _ h (ground arith, tt))
  | inr (b, found) ↦ rw (found, seeded) h
]

-- What recording a sample for the circuit `name` does to the breakers of `before`, where the
-- sample turns the row `b` (the stored one, or a closed seed) into `b'`.
pub record IsRecorded (name : Text) (before : List CircuitBreaker) (b' : CircuitBreaker)
    (r : Option (CircuitBreaker × Circuits)) : Type 0 where
  pub after : Circuits
  pub returned : r ≡ some (b', after)
  pub stored : find_breaker name after.breakers ≡ some b'
  pub others : (n : Text) → n ≢ name → find_breaker n after.breakers ≡ find_breaker n before
  pub sound : All IsSound after.breakers

module _ (name : Text) (healthy : Bool) (failures : ℕ) (error_code : Option String) (now : ℕ)
    (c : Circuits) (h : All IsSound c.breakers) where
  applied : CircuitBreaker
  applied = apply_sample (row name c.breakers) healthy failures error_code now

  row-name : (row name c.breakers).name ≡ name
  row-name = elim (Option-cases (find_breaker name c.breakers)) [
    | inl missing ↦ rw missing
    | inr (b, found) ↦ rw found (find_breaker-name name b c.breakers found)
  ]

  applied-name : applied.name ≡ name
  unfolding applied
  applied-name = apply_sample-name (row name c.breakers) healthy failures error_code now ∙ row-name

  row-IsSound : IsSound (row name c.breakers)
  row-IsSound = elim (Option-cases (find_breaker name c.breakers)) [
    | inl missing ↦ rw missing (ground arith)
    | inr (b, found) ↦ rw found (find_breaker-IsSound name b c.breakers found h)
  ]

  apply_locked-IsRecorded :
      IsRecorded name c.breakers
        (apply_sample (row name c.breakers) healthy failures error_code now)
        (apply_locked healthy failures error_code now c (locked_breaker name c.breakers))
  unfolding applied
  apply_locked-IsRecorded = record {
    after = record c { breakers = save_breaker applied (seeded name c.breakers) };
    returned = rw (locked_breaker_lem name c.breakers);
    stored =
        find_breaker-save name applied _ _ applied-name (find_breaker-seeded-row name c.breakers);
    others = λ n ne.
        find_breaker-save_ne n applied (seeded name c.breakers) (λ e. ne (e ∙ applied-name))
        ∙ find_breaker-seeded_ne n name c.breakers ne;
    sound =
        save_breaker-All IsSound applied (seeded name c.breakers)
          (apply_sample-IsSound _ healthy failures error_code now row-IsSound)
          (seeded-All name c.breakers h);
  }

gateway_failures-append :
    (healthy : Bool) (latency_ms : ℕ) (detail : Fields) (now : ℕ)
    (snapshot : Option GatewaySnapshot) (samples : List GatewayHealthSample)
    → gateway_failures now (samples ++ snapshot_sample healthy latency_ms detail now snapshot ∷ [])
      ≡ gateway_failures now samples + bit (not healthy)
unfolding gateway_failures
gateway_failures-append healthy latency_ms detail now snapshot samples =
    count-append _ samples _ ∙ ap (λ n. gateway_failures now samples + n) (ground arith)

-- Where every circuit's back-off is between five and thirty minutes and exactly the open circuits
-- have a time, recording a sample of the gateway does not fail: the gateway's circuit, seeded if
-- it is not there, is written as `_apply_sample` turns it, with the failures of the last minute
-- counted together with the new sample; no other circuit changes, and the back-offs and times
-- stay so.
pub record_gateway_sample_lem :
    (healthy : Bool) (latency_ms : ℕ) (detail : Fields) (now : ℕ) (error_code : Option String)
    (snapshot : Option GatewaySnapshot) (c : Circuits)
    → All IsSound c.breakers
    → IsRecorded gateway_name c.breakers
        (apply_sample
          (row gateway_name c.breakers)
          healthy
          (gateway_failures now c.gateway_samples + bit (not healthy))
          error_code
          now)
        (record_gateway_sample healthy latency_ms detail now error_code snapshot c)
unfolding record_gateway_sample
record_gateway_sample_lem healthy latency_ms detail now error_code snapshot c h =
    rw (gateway_failures-append healthy latency_ms detail now snapshot c.gateway_samples) (
      apply_locked-IsRecorded gateway_name healthy
        (gateway_failures now c.gateway_samples + bit (not healthy)) error_code now
        (record c {
          gateway_samples =
              c.gateway_samples ++ snapshot_sample healthy latency_ms detail now snapshot ∷ [];
        })
        h)

vendor_failures-append :
    (vendor category : Text) (healthy : Bool) (latency_ms : ℕ) (detail : Fields) (now : ℕ)
    (samples : List VendorHealthSample)
    → vendor_failures now vendor category
        (samples ++ vendor_sample vendor category healthy latency_ms detail now ∷ [])
      ≡ vendor_failures now vendor category samples + bit (not healthy)
unfolding vendor_failures
vendor_failures-append vendor category healthy latency_ms detail now samples =
    count-append _ samples _
    ∙ ap (λ n. vendor_failures now vendor category samples + n)
        (ground (arith, text_eq_refl vendor, text_eq_refl category))

-- The same for a sample of a vendor's data category, whose circuit has the vendor's and the
-- category's name, and for which the failures of this vendor and category are counted.
pub record_vendor_sample_lem :
    (vendor category : Text) (healthy : Bool) (latency_ms : ℕ) (detail : Fields) (now : ℕ)
    (error_code : Option String) (c : Circuits)
    → All IsSound c.breakers
    → IsRecorded
        (vendor_name category vendor)
        c.breakers
        (apply_sample
          (row (vendor_name category vendor) c.breakers)
          healthy
          (vendor_failures now vendor category c.vendor_samples + bit (not healthy))
          error_code
          now)
        (record_vendor_sample vendor category healthy latency_ms detail now error_code c)
unfolding record_vendor_sample
record_vendor_sample_lem vendor category healthy latency_ms detail now error_code c h =
    rw (vendor_failures-append vendor category healthy latency_ms detail now c.vendor_samples) (
      apply_locked-IsRecorded (vendor_name category vendor) healthy
        (vendor_failures now vendor category c.vendor_samples + bit (not healthy)) error_code now
        (record c {
          vendor_samples =
              c.vendor_samples ++ vendor_sample vendor category healthy latency_ms detail now ∷ [];
        })
        h)
