-- ===== src/Tests/Waiting.antt =====
-- A run that waits for its data, and the claim of its requirement.
use market_quorum.Prelude.{◌+◌, ◌≡◌, refl, Bool, true, false, [], ◌∷◌, Option, none, some, String}
use market_quorum.Prelude.Table.{IsUnique}
use market_quorum.Prelude.Json.{Json, str, obj, end, field}
use market_quorum.Domain.Runs.{waiting_for_data, queued, is_allowed}
use market_quorum.Store.{Database, AssessmentDataRequirement, RequirementStatus}
use market_quorum.Store.Tx.{Result, ok}
use market_quorum.Scheduler.Circuits.{seconds}
use market_quorum.DataReadiness.{DataRequirementClaim, claim_due, locked}
use market_quorum.DataReadiness.Provider.{Manifest, Answer, raised}
use market_quorum.DataReadiness.Settle.{apply_ready}
use market_quorum.DataReadiness.Reconcile.{settle}
use market_quorum.DataReadiness.Claims.{IsVoid, settle-void}
use market_quorum.DataReadiness.Spent.{settle-IsVoid}
use market_quorum.DataReadiness.Claiming.{IsTaken, claim_due-IsTaken}
use market_quorum.DataReadiness.Queueing.{IsQueuedWith, apply_ready-IsQueuedWith}
use market_quorum.Tests.Sample.{tables, after, nothing_locked}

abbrev needed : AssessmentDataRequirement
needed = record {
  run_id = 11;
  provider_request_id = "77";
  external_request_key = "k";
  required_products_json = [];
  status = RequirementStatus.waiting;
  progress_json = obj end;
  manifest_snapshot_id = none;
  manifest_sha256 = none;
  next_poll_at = some 5;
  lease_owner = none;
  lease_expires_at = none;
  last_progress_fingerprint = none;
  version = 1;
  created_at = 5;
}

abbrev lacking : Database
lacking = record (tables waiting_for_data queued queued) { requirements = (31, needed) ∷ [] }

lacking-IsUnique : IsUnique lacking.requirements
lacking-IsUnique = (refl, tt)

abbrev taking : Result (Option DataRequirementClaim × Database)
taking = claim_due nothing_locked "w" 60 10 lacking

abbrev claim_31 : DataRequirementClaim
claim_31 = record {
  requirement_id = 31;
  run_id = 11;
  provider_request_id = "77";
  version = 2;
  lease_owner = "w";
}

taking-eq : taking ≡ ok (some claim_31, after taking)
unfolding claim_due
taking-eq = refl

claim_due-IsTaken_example :
    IsTaken nothing_locked "w" (10 + seconds 60) 10 claim_31 lacking (after taking)
claim_due-IsTaken_example =
    claim_due-IsTaken nothing_locked "w" 60 10 lacking lacking-IsUnique taking-eq

abbrev delivered : Manifest
delivered = record { snapshot_id = "s"; manifest_sha256 = "h"; calculated = some "h" }

abbrev manifest_json : Json
manifest_json = obj (field "snapshot_id" (str "s") end)

abbrev readying : Result (Bool × Database)
readying = apply_ready claim_31 manifest_json delivered (after taking)

readying-eq : readying ≡ ok (true, after readying)
unfolding apply_ready claim_due is_allowed
readying-eq = refl

apply_ready-IsQueuedWith_example :
    IsQueuedWith claim_31 manifest_json (after taking) (after readying)
apply_ready-IsQueuedWith_example =
    apply_ready-IsQueuedWith claim_31 manifest_json delivered (after taking) readying-eq

abbrev no_manifest : String → Answer Manifest
no_manifest id = raised "not_found"

abbrev digest : Json → String
digest document = "d"

abbrev settling : Result (Bool × Database)
settling = settle digest claim_31 no_manifest (raised "timeout") (some 20) 15 (after taking)

settling-eq : settling ≡ ok (true, after settling)
unfolding settle claim_due
settling-eq = refl

settle-IsVoid_example : IsVoid claim_31 (after settling)
settle-IsVoid_example =
    settle-IsVoid claim_31 digest no_manifest (raised "timeout") (some 20) 15 (after taking)
      settling-eq

unclaimed-IsVoid : IsVoid claim_31 lacking
unfolding locked
unclaimed-IsVoid = refl

settle-void_example :
    settle digest claim_31 no_manifest (raised "timeout") (some 20) 15 lacking ≡ ok (false, lacking)
settle-void_example =
    settle-void claim_31 digest no_manifest (raised "timeout") (some 20) 15 lacking unclaimed-IsVoid
