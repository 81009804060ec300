-- ===== src/DataReadiness/Claims.antt =====
-- What the lease and the version of a claim of data_readiness/repository.py guard.
use market_quorum.Prelude.{ℕ, ◌≡◌, false, Option, none, some, String, arith, Bool-cases, inl, inr}
use market_quorum.Prelude.Text.{Text}
use market_quorum.Prelude.Json.{Json}
use market_quorum.Domain.Runs.{RunStatus}
use market_quorum.Store.{Database, RequirementStatus}
use market_quorum.Store.Tx.{ok}
use market_quorum.DataReadiness.{DataRequirementClaim, locked}
use market_quorum.DataReadiness.Provider.{
  ManifestReference, ProviderError, CandidateStatus, Readiness, Manifest, Answer, raised, answered,
}
use market_quorum.DataReadiness.Settle.{
  apply_waiting, apply_ready, finish, apply_rejected, apply_attention, release_transient,
}
use market_quorum.DataReadiness.Reconcile.{
  verify_manifest, settle_rejected, settle_ready, settle_status, settle,
}

module _ (claim : DataRequirementClaim) where
  -- The claim is void: its requirement has been claimed again, settled or cancelled.
  abbrev pub IsVoid : Database → Type 0
  IsVoid db = locked claim db ≡ none

  void-release_transient :
      (code : String) (t : Option ℕ) (db : Database)
      → IsVoid db
      → release_transient claim code t db ≡ ok (false, db)
  unfolding release_transient
  void-release_transient code t db h = ground arith

  void-finish :
      (s : RunStatus) (r : RequirementStatus) (code : String) (summary : Text) (now : ℕ)
      (db : Database)
      → IsVoid db
      → finish claim s r code summary now db ≡ ok (false, db)
  unfolding finish
  void-finish s r code summary now db h = ground arith

  void-apply_attention :
      (code : String) (now : ℕ) (db : Database)
      → IsVoid db
      → apply_attention claim code now db ≡ ok (false, db)
  unfolding apply_attention
  void-apply_attention code now db h = ground arith

  void-apply_rejected :
      (e : Option ProviderError) (now : ℕ) (db : Database)
      → IsVoid db
      → apply_rejected claim e now db ≡ ok (false, db)
  unfolding apply_rejected
  void-apply_rejected none now db h = ground arith
  void-apply_rejected (some e) now db h = ground arith

  void-apply_ready :
      (dump : Json) (m : Manifest) (db : Database)
      → IsVoid db
      → apply_ready claim dump m db ≡ ok (false, db)
  unfolding apply_ready
  void-apply_ready dump m db h = ground arith

  void-verify_manifest :
      (reference : ManifestReference) (t : Option ℕ) (now : ℕ) (a : Answer Manifest) (db : Database)
      → IsVoid db
      → verify_manifest claim reference t now a db ≡ ok (false, db)
  void-verify_manifest reference t now (raised code) db h = void-release_transient code t db h
  void-verify_manifest reference t now (answered m) db h = ground (
    arith,
    void-apply_attention "manifest_hash_mismatch" now db h,
    void-apply_attention "manifest_content_hash_mismatch" now db h,
    void-apply_ready reference.dump m db h,
  )

  void-settle_rejected :
      (e : Option ProviderError) (t : Option ℕ) (now : ℕ) (db : Database)
      → IsVoid db
      → settle_rejected claim e t now db ≡ ok (false, db)
  unfolding apply_rejected
  void-settle_rejected none t now db h = void-apply_rejected none now db h
  void-settle_rejected (some e) t now db h = elim (Bool-cases e.retryable) [
    | inl again ↦ rw again (void-release_transient e.code _ db h)
    | inr never ↦ rw never (void-apply_rejected (some e) now db h)
  ]

  void-settle_ready :
      (deliver : String → Answer Manifest) (m : Option ManifestReference) (t : Option ℕ) (now : ℕ)
      (db : Database)
      → IsVoid db
      → settle_ready claim deliver m t now db ≡ ok (false, db)
  void-settle_ready deliver none t now db h = void-apply_attention _ now db h
  void-settle_ready deliver (some r) t now db h =
      void-verify_manifest r t now (deliver r.snapshot_id) db h

  void-settle_status :
      (fingerprint : Json → String) (deliver : String → Answer Manifest) (s : CandidateStatus)
      (r : Readiness) (t : Option ℕ) (now : ℕ) (db : Database)
      → IsVoid db
      → settle_status fingerprint claim deliver s r t now db ≡ ok (false, db)
  unfolding apply_waiting
  void-settle_status fingerprint deliver s Readiness.waiting t now db h = ground arith
  void-settle_status fingerprint deliver s Readiness.rejected t now db h =
      void-settle_rejected s.error t now db h
  void-settle_status fingerprint deliver s Readiness.ready t now db h =
      void-settle_ready deliver s.manifest t now db h

  -- Settling a claim that does not hold returns false and changes nothing, whatever the provider
  -- answered.
  pub settle-void :
      (fingerprint : Json → String) (deliver : String → Answer Manifest)
      (a : Answer CandidateStatus) (t : Option ℕ) (now : ℕ) (db : Database)
      → IsVoid db
      → settle fingerprint claim deliver a t now db ≡ ok (false, db)
  unfolding settle
  settle-void fingerprint deliver (raised code) t now db h = void-release_transient code t db h
  settle-void fingerprint deliver (answered s) t now db h =
      void-settle_status fingerprint deliver s s.readiness t now db h
