-- ===== src/Scheduler/Policy.antt =====
-- platform/src/tradingng_platform/scheduler/policy.py: the capacity limits of admission. The
-- floating-point readings are only compared; they are counted here in thousandths of their unit.
pub mod Limits
use market_quorum.Prelude.{
  ℕ, Bool, true, false, ◌&&◌, List, [], ◌∷◌, Option, none, some, ltb, leb, if◌then◌else◌, String,
}

pub data Depth : Type 0 where
  shallow medium deep : Depth

-- `DEPTH_ROUNDS`: the debate rounds and the risk rounds.
unfoldable pub depth_rounds : Depth → ℕ × ℕ
depth_rounds shallow = (1, 1)
depth_rounds medium = (2, 2)
depth_rounds deep = (3, 3)

abbrev pub absolute_max_running_total : ℕ
absolute_max_running_total = 32

pub record SystemSnapshot : Type 0 where
  pub cpu_percent : ℕ
  pub available_memory_gib : ℕ
  pub available_disk_gib : ℕ
  pub available_disk_percent : ℕ
  pub cpu_above_limit_for_two_minutes : Bool

-- gateway/client.py
pub record GatewaySnapshot : Type 0 where
  pub active_completions : ℕ
  pub model : String
  pub reasoning_effort : String
  pub snapshot_id : String
  pub latency_ms : ℕ

pub record CapacitySnapshot {ℓ} (Circuit : Type ℓ) : Type ℓ where
  pub active_runs : ℕ
  pub gateway : GatewaySnapshot
  pub system : SystemSnapshot
  pub open_circuits : List Circuit

-- The texts that an `AdmissionDecision` gives as reasons, here and in scheduler/repository.py.
pub data Reason : Type 0 where
  run_capacity gateway_capacity cpu memory disk_gib disk_percent circuit_breaker : Reason
  admission_lock queue_empty data_manifest_missing ticker_active : Reason

pub record AdmissionDecision : Type 0 where
  pub allowed : Bool
  pub reasons : List Reason

pub record AdmissionPolicy : Type 0 where
  pub max_running_total : ℕ
  pub hard_max_running_total : ℕ
  pub gateway_active_limit : ℕ
  pub cpu_limit_percent : ℕ
  pub minimum_memory_gib : ℕ
  pub minimum_disk_gib : ℕ
  pub minimum_disk_percent : ℕ

-- `AdmissionPolicy()`
abbrev pub default_policy : AdmissionPolicy
default_policy = record {
  max_running_total = 2;
  hard_max_running_total = absolute_max_running_total;
  gateway_active_limit = 3;
  cpu_limit_percent = 85_000;
  minimum_memory_gib = 8_000;
  minimum_disk_gib = 10_000;
  minimum_disk_percent = 10_000;
}

pub data PolicyError : Type 0 where
  capacity_exceeds_hard_maximum gateway_limit_not_positive : PolicyError

-- `__post_init__`: the error that it raises, if any.
unfoldable pub post_init : AdmissionPolicy → Option PolicyError
post_init p =
    if leb 1 p.max_running_total
      && leb p.max_running_total p.hard_max_running_total
      && leb p.hard_max_running_total absolute_max_running_total
    then (if ltb p.gateway_active_limit 1 then some gateway_limit_not_positive else none)
    else some capacity_exceeds_hard_maximum

-- `if test: reasons.append(reason)`, ahead of what is appended later.
abbrev pub append_if : Bool → Reason → List Reason → List Reason
append_if test reason later = if test then reason ∷ later else later

abbrev pub is_empty {ℓ} : {A : Type ℓ} → List A → Bool
is_empty [] = true
is_empty (x ∷ xs) = false

abbrev pub is_nonempty {ℓ} : {A : Type ℓ} → List A → Bool
is_nonempty [] = false
is_nonempty (x ∷ xs) = true

module _ {ℓ} {Circuit : Type ℓ} where
  -- The list `reasons` of `evaluate`.
  unfoldable pub limit_reasons : AdmissionPolicy → CapacitySnapshot Circuit → List Reason
  limit_reasons p s = append_if (leb p.max_running_total s.active_runs) run_capacity (
      append_if (leb p.gateway_active_limit s.gateway.active_completions) gateway_capacity (
        append_if s.system.cpu_above_limit_for_two_minutes cpu (
          append_if (ltb s.system.available_memory_gib p.minimum_memory_gib) memory (
            append_if (ltb s.system.available_disk_gib p.minimum_disk_gib) disk_gib (
              append_if (ltb s.system.available_disk_percent p.minimum_disk_percent) disk_percent
                (append_if (is_nonempty s.open_circuits) circuit_breaker []))))))

  unfoldable pub evaluate : AdmissionPolicy → CapacitySnapshot Circuit → AdmissionDecision
  evaluate p s = record { allowed = is_empty (limit_reasons p s); reasons = limit_reasons p s }
