-- ===== src/Tests/Admitting.antt =====
-- Admission on the sample tables: of two runs for one instrument the one that was created first.
use market_quorum.Prelude.{◌≤◌, ◌≡◌, refl, true, false, [], none, String, arith, ◌↔◌}
use market_quorum.Prelude.Table.{IsUnique}
use market_quorum.Domain.Runs.{queued, is_allowed}
use market_quorum.Store.{Database}
use market_quorum.Store.Tx.{Result, ok}
use market_quorum.Scheduler.Policy.{
  AdmissionDecision, CapacitySnapshot, default_policy, limit_reasons, evaluate,
}
use market_quorum.Scheduler.Policy.Limits.{IsWithinLimits, evaluate_allowed_iff}
use market_quorum.Scheduler.Metadata.{manifest_required}
use market_quorum.Scheduler.Admission.{active_on, active_runs}
use market_quorum.Scheduler.Admission.Admit.{admit_one}
use market_quorum.Scheduler.Admission.Outcome.{Outcome}
use market_quorum.Scheduler.Admission.Safety.{admit_one-Outcome, admit_one-exclusive}
use market_quorum.Tests.Sample.{
  tables, after, sample_services, sample_gateway, sample_system, sample_metadata, nothing_held,
  nothing_locked,
}

abbrev let_in : AdmissionDecision
let_in = record { allowed = true; reasons = [] }

queue-IsUnique : IsUnique (tables queued queued queued).runs
queue-IsUnique = (refl, (refl, (refl, tt)))

abbrev queue : Database
queue = tables queued queued queued

abbrev admission : Result (AdmissionDecision × Database)
admission =
    admit_one sample_services default_policy sample_gateway sample_system sample_metadata none []
      nothing_held nothing_locked 100 7 queue

admission-eq : admission ≡ ok (let_in, after admission)
unfolding admit_one limit_reasons is_allowed
admission-eq = refl

admits_one_apple : active_on "AAPL" (after admission) ≡ 1
unfolding admit_one limit_reasons is_allowed active_on
admits_one_apple = refl

admit_one-Outcome_example :
    Outcome default_policy false nothing_held nothing_locked queue let_in (after admission)
unfolding manifest_required
admit_one-Outcome_example =
    admit_one-Outcome sample_services default_policy sample_gateway sample_system sample_metadata
      none [] nothing_held nothing_locked 100 7 queue queue-IsUnique admission-eq

none_active : (ticker : String) → active_on ticker queue ≤ 1
unfolding active_on
none_active ticker = ground arith

none_running : active_runs queue ≤ 2
unfolding active_runs
none_running = ground arith

admit_one-exclusive_example :
    ((ticker : String) → active_on ticker (after admission) ≤ 1)
    × (active_runs (after admission) ≤ 2)
admit_one-exclusive_example =
    admit_one-exclusive sample_services default_policy sample_gateway sample_system sample_metadata
      none [] nothing_held nothing_locked 100 7 queue queue-IsUnique none_active none_running
      admission-eq

abbrev roomy : CapacitySnapshot String
roomy = record {
  active_runs = 1;
  gateway = sample_gateway;
  system = sample_system;
  open_circuits = [];
}

abbrev crowded : CapacitySnapshot String
crowded = record {
  active_runs = 4;
  gateway = sample_gateway;
  system = sample_system;
  open_circuits = [];
}

evaluate_allowed_iff_example :
    ((evaluate default_policy roomy).allowed ≡ true) ↔ IsWithinLimits default_policy roomy
evaluate_allowed_iff_example = evaluate_allowed_iff default_policy roomy
