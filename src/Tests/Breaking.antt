-- ===== src/Tests/Breaking.antt =====
-- Circuits: one of a vendor that is open, and the gateway's.
use market_quorum.Prelude.{
  ◌≤◌, ◌+◌, ◌*◌, ◌^◌, min, ◌≡◌, ◌↔◌, refl, true, false, ◌&&◌, any, All, List, [], ◌∷◌, Option, none,
  some, arith,
}
use market_quorum.Prelude.Text.{Text, codes, text_eq}
use market_quorum.Prelude.Json.{end}
use market_quorum.Scheduler.Circuits.{
  closed, opened, CircuitBreaker, Circuits, apply_sample, find_breaker, gateway_name, vendor_name,
  gateway_failures, vendor_failures, record_gateway_sample, record_vendor_sample, snapshot_sample,
}
use market_quorum.Scheduler.Circuits.Probes.{
  is_relevant, blockers, acquire_expired_probes, acquire_probe, is_expired,
}
use market_quorum.Scheduler.Circuits.Rows.{row}
use market_quorum.Scheduler.Circuits.Backoff.{
  IsSound, IsRecorded, record_gateway_sample_lem, record_vendor_sample_lem,
}
use market_quorum.Scheduler.Circuits.Exclusion.{
  IsDistinct, holds_of, probed, acquire_expired_probes_lem,
}
use market_quorum.Scheduler.Circuits.Held.{Passes, no_more, pass, probe, held_once}
use market_quorum.Scheduler.Circuits.Growth.{
  gateway-opens_iff, Waits, fail_probes, fail_probes-Waits,
}

abbrev prices : Text
prices = codes "vendor:prices:yf"

abbrev yf : Text
yf = codes "yf"

abbrev open_breaker : CircuitBreaker
open_breaker = record {
  name = prices;
  status = opened;
  failure_count = 3;
  opened_until = some 50;
  backoff_seconds = 300;
  last_error_code = none;
}

abbrev gateway_breaker : CircuitBreaker
gateway_breaker = record {
  name = gateway_name;
  status = closed;
  failure_count = 2;
  opened_until = none;
  backoff_seconds = 300;
  last_error_code = none;
}

-- Two samples of the gateway have failed within the last minute.
abbrev circuits : Circuits
circuits = record {
  breakers = open_breaker ∷ gateway_breaker ∷ [];
  gateway_samples = snapshot_sample false 5 end 10 none ∷ snapshot_sample false 5 end 20 none ∷ [];
  vendor_samples = [];
}

circuits-IsSound : All IsSound circuits.breakers
circuits-IsSound = ground arith

circuits-IsDistinct : IsDistinct circuits.breakers
unfolding find_breaker text_eq
circuits-IsDistinct = (refl, (refl, tt))

record_gateway_sample_lem_example :
    IsRecorded gateway_name circuits.breakers
      (apply_sample
        (row gateway_name circuits.breakers)
        false
        (gateway_failures 30 circuits.gateway_samples + 1)
        none
        30)
      (record_gateway_sample false 5 end 30 none none circuits)
record_gateway_sample_lem_example =
    record_gateway_sample_lem false 5 end 30 none none circuits circuits-IsSound

record_vendor_sample_lem_example :
    IsRecorded
      (vendor_name (codes "prices") yf)
      circuits.breakers
      (apply_sample
        (row (vendor_name (codes "prices") yf) circuits.breakers)
        false
        (vendor_failures 30 yf (codes "prices") circuits.vendor_samples + 1)
        none
        30)
      (record_vendor_sample yf (codes "prices") false 5 end 30 none circuits)
record_vendor_sample_lem_example =
    record_vendor_sample_lem yf (codes "prices") false 5 end 30 none circuits circuits-IsSound

abbrev recorded : Option (CircuitBreaker × Circuits)
recorded = record_gateway_sample false 5 end 30 none none circuits

abbrev breaker_of : Option (CircuitBreaker × Circuits) → CircuitBreaker
breaker_of none = gateway_breaker
breaker_of (some (b, c)) = b

abbrev circuits_of {ℓ} : {A : Type ℓ} → Option (A × Circuits) → Circuits
circuits_of none = circuits
circuits_of (some (a, c)) = c

recorded-eq : recorded ≡ some (breaker_of recorded, circuits_of recorded)
unfolding record_gateway_sample text_eq
recorded-eq = refl

gateway-is_closed : (row gateway_name circuits.breakers).status ≡ closed
unfolding find_breaker text_eq
gateway-is_closed = refl

gateway-opens_iff_example :
    ((breaker_of recorded).status ≡ opened) ↔ (2 ≤ gateway_failures 30 circuits.gateway_samples)
gateway-opens_iff_example =
    gateway-opens_iff 5 end 30 none none circuits circuits-IsSound gateway-is_closed recorded-eq

fail_probes-Waits_example :
    Waits 200
      (min (300 * 2 ^ 2) 1800)
      (fail_probes open_breaker ((3, none, 100) ∷ (3, none, 200) ∷ []))
fail_probes-Waits_example = fail_probes-Waits open_breaker ((3, none, 100) ∷ []) 3 none 200 refl

abbrev taken : Option (List Text × Circuits)
taken = acquire_expired_probes 60 (some (yf ∷ [])) circuits

taken-eq : taken ≡ some (prices ∷ [], circuits_of taken)
unfolding acquire_expired_probes text_eq
taken-eq = refl

concerns_yf : is_relevant prices (some (yf ∷ [])) ≡ some true
unfolding is_relevant text_eq
concerns_yf = refl

acquire_expired_probes_lem_example :
    (any (text_eq prices) (prices ∷ [])
      ≡ (holds_of (is_expired 60) (find_breaker prices circuits.breakers) && true))
    × (find_breaker prices (circuits_of taken).breakers
        ≡ probed
            (holds_of (is_expired 60) (find_breaker prices circuits.breakers) && true)
            (find_breaker prices circuits.breakers))
acquire_expired_probes_lem_example =
    acquire_expired_probes_lem 60 (some (yf ∷ [])) circuits circuits-IsDistinct taken-eq prices true
      concerns_yf

prices-taken : any (text_eq prices) (prices ∷ []) ≡ true
unfolding text_eq
prices-taken = refl

abbrev taken_later : Option (List Text × Circuits)
taken_later = acquire_expired_probes 90 none (circuits_of taken)

taken_later-eq : taken_later ≡ some ([], circuits_of taken_later)
unfolding acquire_expired_probes text_eq
taken_later-eq = refl

-- Two more calls between.
abbrev probed_after : Circuits
probed_after = (acquire_probe prices 95 (circuits_of taken_later)).1

between : Passes (circuits_of taken) probed_after
between =
    pass 90 none [] (circuits_of taken) (circuits_of taken_later) probed_after taken_later-eq
      (probe prices 95 (circuits_of taken_later) probed_after (no_more probed_after))

abbrev taken_last : Option (List Text × Circuits)
taken_last = acquire_expired_probes 120 none probed_after

taken_last-eq : taken_last ≡ some ([], circuits_of taken_last)
unfolding acquire_expired_probes acquire_probe text_eq
taken_last-eq = refl

concerns_all : is_relevant prices none ≡ some true
unfolding is_relevant
concerns_all = refl

blocked : blockers 120 none probed_after ≡ some (prices ∷ [])
unfolding acquire_expired_probes acquire_probe blockers text_eq
blocked = refl

held_once_example :
    (any (text_eq prices) [] ≡ false)
    × ((acquire_probe prices 120 probed_after).0 ≡ false)
    × (any (text_eq prices) (prices ∷ []) ≡ true)
held_once_example =
    held_once 60 (some (yf ∷ [])) circuits circuits-IsDistinct taken-eq prices concerns_yf
      prices-taken 120 none true between concerns_all taken_last-eq blocked
