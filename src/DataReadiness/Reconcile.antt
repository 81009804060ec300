-- ===== src/DataReadiness/Reconcile.antt =====
-- The choice of data_readiness/service.py between the operations on a claim.
use market_quorum.Prelude.{ℕ, Bool, not, Option, none, some, String, str_eq, if◌then◌else◌}
use market_quorum.Prelude.Json.{Json}
use market_quorum.Store.Tx.{Tx}
use market_quorum.DataReadiness.{DataRequirementClaim}
use market_quorum.DataReadiness.Provider.{
  ManifestReference, ProviderError, Readiness, waiting, rejected, ready, CandidateStatus, Manifest,
  Answer, raised, answered,
}
use market_quorum.DataReadiness.Settle.{
  same_fingerprint, apply_waiting, apply_rejected, apply_attention, apply_ready, release_transient,
}

-- The run goes to the queue where the provider's manifest is the one that its status names, and its
-- digest is that of its content.
abbrev pub verify_manifest :
    DataRequirementClaim → ManifestReference → Option ℕ → ℕ → Answer Manifest → Tx Bool
verify_manifest claim reference next_poll now (raised code) = release_transient claim code next_poll
verify_manifest claim reference next_poll now (answered manifest) =
    if not (str_eq manifest.manifest_sha256 reference.manifest_sha256)
    then apply_attention claim "manifest_hash_mismatch" now
    else (if not (same_fingerprint manifest.calculated manifest.manifest_sha256)
        then apply_attention claim "manifest_content_hash_mismatch" now
        else apply_ready claim reference.dump manifest)

abbrev pub retry_time : Option ℕ → Option ℕ → Option ℕ
retry_time none next_poll = next_poll
retry_time (some t) next_poll = some t

abbrev pub settle_rejected : DataRequirementClaim → Option ProviderError → Option ℕ → ℕ → Tx Bool
settle_rejected claim none next_poll now = apply_rejected claim none now
settle_rejected claim (some error) next_poll now =
    if error.retryable
    then release_transient claim error.code (retry_time error.retry_after next_poll)
    else apply_rejected claim (some error) now

abbrev pub settle_ready :
    DataRequirementClaim
    → (String → Answer Manifest)
    → Option ManifestReference
    → Option ℕ
    → ℕ
    → Tx Bool
settle_ready claim deliver none next_poll now =
    apply_attention claim "manifest_reference_missing" now
settle_ready claim deliver (some reference) next_poll now =
    verify_manifest claim reference next_poll now (deliver reference.snapshot_id)

abbrev pub settle_status :
    (Json → String)
    → DataRequirementClaim
    → (String → Answer Manifest)
    → CandidateStatus
    → Readiness
    → Option ℕ
    → ℕ
    → Tx Bool
settle_status fingerprint claim deliver status waiting next_poll now =
    apply_waiting fingerprint claim status next_poll
settle_status fingerprint claim deliver status rejected next_poll now =
    settle_rejected claim status.error next_poll now
settle_status fingerprint claim deliver status ready next_poll now =
    settle_ready claim deliver status.manifest next_poll now

-- `reconcile_one` from the provider's answer on: the transaction that settles the claim. `deliver` is
-- the client's `manifest`.
unfoldable pub settle :
    (Json → String)
    → DataRequirementClaim
    → (String → Answer Manifest)
    → Answer CandidateStatus
    → Option ℕ
    → ℕ
    → Tx Bool
unfolding apply_waiting apply_rejected apply_attention apply_ready release_transient
settle fingerprint claim deliver (raised code) next_poll now =
    release_transient claim code next_poll
settle fingerprint claim deliver (answered status) next_poll now =
    settle_status fingerprint claim deliver status status.readiness next_poll now
