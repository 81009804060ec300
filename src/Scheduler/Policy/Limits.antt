-- ===== src/Scheduler/Policy/Limits.antt =====
-- When scheduler/policy.py lets a run in, and what it reports otherwise.
use market_quorum.Prelude.{
  ℕ, ◌≤◌, ◌<◌, ◌≡◌, ◌↔◌, Bool, true, false, List, [], any, arith, ltb, leb, ◌==◌,
}
use market_quorum.Scheduler.Policy.{
  Reason, run_capacity, gateway_capacity, cpu, memory, disk_gib, disk_percent, circuit_breaker,
  AdmissionPolicy, CapacitySnapshot, is_nonempty, limit_reasons, evaluate,
}

-- The order of the reasons, for a test of equality.
abbrev code_of : Reason → ℕ
code_of run_capacity = 0
code_of gateway_capacity = 1
code_of cpu = 2
code_of memory = 3
code_of disk_gib = 4
code_of disk_percent = 5
code_of circuit_breaker = 6
code_of Reason.admission_lock = 7
code_of Reason.queue_empty = 8
code_of Reason.data_manifest_missing = 9
code_of Reason.ticker_active = 10

abbrev pub lists : Reason → List Reason → Bool
lists r = any (λ x. code_of r == code_of x)

pub record IsWithinLimits {ℓ} {C : Type ℓ} (p : AdmissionPolicy) (s : CapacitySnapshot C)
    : Type ℓ where
  pub runs : s.active_runs < p.max_running_total
  pub completions : s.gateway.active_completions < p.gateway_active_limit
  pub processor : s.system.cpu_above_limit_for_two_minutes ≡ false
  pub memory_left : p.minimum_memory_gib ≤ s.system.available_memory_gib
  pub disk_left : p.minimum_disk_gib ≤ s.system.available_disk_gib
  pub disk_share_left : p.minimum_disk_percent ≤ s.system.available_disk_percent
  pub circuits : s.open_circuits ≡ []

-- The limit that a reason speaks of is exceeded.
abbrev pub exceeds {ℓ} : {C : Type ℓ} → AdmissionPolicy → CapacitySnapshot C → Reason → Bool
exceeds p s run_capacity = leb p.max_running_total s.active_runs
exceeds p s gateway_capacity = leb p.gateway_active_limit s.gateway.active_completions
exceeds p s cpu = s.system.cpu_above_limit_for_two_minutes
exceeds p s memory = ltb s.system.available_memory_gib p.minimum_memory_gib
exceeds p s disk_gib = ltb s.system.available_disk_gib p.minimum_disk_gib
exceeds p s disk_percent = ltb s.system.available_disk_percent p.minimum_disk_percent
exceeds p s circuit_breaker = is_nonempty s.open_circuits
exceeds p s _ = false

module _ {ℓ} {C : Type ℓ} (p : AdmissionPolicy) (s : CapacitySnapshot C) where
  -- `AdmissionPolicy.evaluate` allows exactly when each reading is within its limit and no
  -- circuit is open.
  pub evaluate_allowed_iff : ((evaluate p s).allowed ≡ true) ↔ IsWithinLimits p s
  unfolding evaluate limit_reasons
  evaluate_allowed_iff = (λ h. ground arith, λ h. ground arith)

  -- `AdmissionPolicy.evaluate` lists a reason exactly when the limit that it speaks of is
  -- exceeded.
  pub evaluate_reasons : (r : Reason) → lists r (evaluate p s).reasons ≡ exceeds p s r
  unfolding evaluate limit_reasons
  evaluate_reasons run_capacity = ground arith
  evaluate_reasons _ = ground arith
