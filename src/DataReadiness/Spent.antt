-- ===== src/DataReadiness/Spent.antt =====
-- What becomes of a claim of data_readiness that is settled.
use market_quorum.Prelude.{
  ℕ, ◌≡◌, refl, ap, ◌∙◌, Bool, true, false, not, Option, none, some, String, str_eq, arith,
  if◌then◌else◌, inl, inr,
}
use market_quorum.Prelude.Table.{Table, lookup, insert, lookup-insert_self}
use market_quorum.Prelude.Text.{Text, codes}
use market_quorum.Prelude.Json.{Json}
use market_quorum.Domain.Runs.{RunStatus, failed, needs_attention}
use market_quorum.Store.{Database, AssessmentRun, AssessmentDataRequirement, RequirementStatus}
use market_quorum.Store.Tx.{Tx, ok, branch-eq, pure}
use market_quorum.DataReadiness.{DataRequirementClaim, locked, held_by}
use market_quorum.DataReadiness.Provider.{
  ManifestReference, ProviderError, CandidateStatus, Readiness, Manifest, Answer, raised, answered,
}
use market_quorum.DataReadiness.Settle.{
  released, release_row, transient_error, progressed, wait_more, ready_run, waiting_run,
  ready_requirement, finish_waiting, finished_requirement, with_locked, apply_waiting, apply_ready,
  finish, apply_rejected, apply_attention, release_transient, same_fingerprint,
}
use market_quorum.DataReadiness.Reconcile.{
  verify_manifest, settle_rejected, settle_ready, settle_status, settle, retry_time,
}
use market_quorum.DataReadiness.Claims.{IsVoid}

module _ (claim : DataRequirementClaim) where
  -- The claim's requirement has been written and belongs to nobody.
  record IsSettled (db : Database) : Type 0 where
    row : AssessmentDataRequirement
    before : Table AssessmentDataRequirement
    written : db.requirements ≡ insert claim.requirement_id row before
    unowned : row.lease_owner ≡ none

  IsSettled-IsVoid : (db : Database) → IsSettled db → IsVoid claim db
  unfolding locked
  IsSettled-IsVoid db s =
      ap (λ t. held_by claim (lookup claim.requirement_id t)) s.written
      ∙ ap (held_by claim) (lookup-insert_self claim.requirement_id s.row s.before)
      ∙ ground (arith, s.unowned)

  pub with_locked-eq_true :
      (f : AssessmentDataRequirement → Tx Bool) (db : Database) {db' : Database}
      → with_locked claim f db ≡ ok (true, db')
      → (r : AssessmentDataRequirement) × (f r db ≡ ok (true, db'))
  with_locked-eq_true f db {db'} h = go (locked claim db) h
    where
      go :
          (o : Option AssessmentDataRequirement)
          → (elim o [ none ↦ pure false db | some r ↦ f r db ]) ≡ ok (true, db')
          → (r : AssessmentDataRequirement) × (f r db ≡ ok (true, db'))
      go none k = ground arith
      go (some r) k = (r, k)

  release_transient-IsSettled :
      (code : String) (t : Option ℕ) (db : Database) {db' : Database}
      → release_transient claim code t db ≡ ok (true, db')
      → IsSettled db'
  unfolding release_transient
  release_transient-IsSettled code t db h =
      let (r, k) = with_locked-eq_true (release_row claim code t) db h in
      record {
        row = released t (transient_error code r);
        before = db.requirements;
        written = ground arith;
        unowned = refl;
      }

  wait_more-IsSettled :
      (fingerprint : Json → String) (s : CandidateStatus) (t : Option ℕ)
      (r : AssessmentDataRequirement) (db : Database) {db' : Database}
      → wait_more fingerprint claim s t r db ≡ ok (true, db')
      → IsSettled db'
  wait_more-IsSettled fingerprint s t r db h = record {
    row = released t (progressed fingerprint s r);
    before = db.requirements;
    written = ground arith;
    unowned = refl;
  }

  apply_waiting-IsSettled :
      (fingerprint : Json → String) (s : CandidateStatus) (t : Option ℕ) (db : Database)
      {db' : Database}
      → apply_waiting fingerprint claim s t db ≡ ok (true, db')
      → IsSettled db'
  unfolding apply_waiting
  apply_waiting-IsSettled fingerprint s t db h =
      let (r, k) = with_locked-eq_true (wait_more fingerprint claim s t) db h in
      wait_more-IsSettled fingerprint s t r db k

  ready_run-IsSettled :
      (dump : Json) (m : Manifest) (r : AssessmentDataRequirement) (o : Option AssessmentRun)
      (db : Database) {db' : Database}
      → ready_run claim dump m r o db ≡ ok (true, db')
      → IsSettled db'
  ready_run-IsSettled dump m r none db h = ground arith
  ready_run-IsSettled dump m r (some run) db h = record {
    row = ready_requirement m r;
    before = db.requirements;
    written = ground arith;
    unowned = refl;
  }

  apply_ready-IsSettled :
      (dump : Json) (m : Manifest) (db : Database) {db' : Database}
      → apply_ready claim dump m db ≡ ok (true, db')
      → IsSettled db'
  unfolding apply_ready
  apply_ready-IsSettled dump m db h =
      let (r, k) =
        with_locked-eq_true (λ r db. ready_run claim dump m r (waiting_run claim.run_id db) db) db
          h in
      ready_run-IsSettled dump m r (waiting_run claim.run_id db) db k

  finish_waiting-IsSettled :
      (s : RunStatus) (q : RequirementStatus) (code : String) (summary : Text) (now : ℕ)
      (r : AssessmentDataRequirement) (o : Option AssessmentRun) (db : Database) {db' : Database}
      → finish_waiting claim s q code summary now r o db ≡ ok (true, db')
      → IsSettled db'
  finish_waiting-IsSettled s q code summary now r none db h = ground arith
  finish_waiting-IsSettled s q code summary now r (some run) db h = record {
    row = finished_requirement q code r;
    before = db.requirements;
    written = ground arith;
    unowned = refl;
  }

  finish-IsSettled :
      (s : RunStatus) (q : RequirementStatus) (code : String) (summary : Text) (now : ℕ)
      (db : Database) {db' : Database}
      → finish claim s q code summary now db ≡ ok (true, db')
      → IsSettled db'
  unfolding finish
  finish-IsSettled s q code summary now db h =
      let (r, k) =
        with_locked-eq_true
          (λ r db. finish_waiting claim s q code summary now r (waiting_run claim.run_id db) db) db
          h in
      finish_waiting-IsSettled s q code summary now r (waiting_run claim.run_id db) db k

  apply_attention-IsSettled :
      (code : String) (now : ℕ) (db : Database) {db' : Database}
      → apply_attention claim code now db ≡ ok (true, db')
      → IsSettled db'
  unfolding apply_attention
  apply_attention-IsSettled code now db h =
      finish-IsSettled needs_attention RequirementStatus.needs_attention code
        (codes "StockLean manifest integrity verification failed") now db h

  apply_rejected-IsSettled :
      (e : Option ProviderError) (now : ℕ) (db : Database) {db' : Database}
      → apply_rejected claim e now db ≡ ok (true, db')
      → IsSettled db'
  unfolding apply_rejected
  apply_rejected-IsSettled none now db h =
      finish-IsSettled failed RequirementStatus.failed "data_preparation_failed"
        (codes "StockLean data preparation failed") now db h
  apply_rejected-IsSettled (some e) now db h =
      finish-IsSettled failed RequirementStatus.failed e.code e.message now db h

  verify_manifest-IsSettled :
      (reference : ManifestReference) (t : Option ℕ) (now : ℕ) (a : Answer Manifest) (db : Database)
      {db' : Database}
      → verify_manifest claim reference t now a db ≡ ok (true, db')
      → IsSettled db'
  verify_manifest-IsSettled reference t now (raised code) db h =
      release_transient-IsSettled code t db h
  verify_manifest-IsSettled reference t now (answered m) db h =
      elim (branch-eq (not (str_eq m.manifest_sha256 reference.manifest_sha256))
        (apply_attention claim "manifest_hash_mismatch" now)
        (if not (same_fingerprint m.calculated m.manifest_sha256)
          then apply_attention claim "manifest_content_hash_mismatch" now
          else apply_ready claim reference.dump m)
        db h) [
          | inl (_, k) ↦ apply_attention-IsSettled _ now db k
          | inr (_, k) ↦
              elim (branch-eq (not (same_fingerprint m.calculated m.manifest_sha256))
                (apply_attention claim "manifest_content_hash_mismatch" now)
                (apply_ready claim reference.dump m) db k) [
                  | inl (_, k) ↦ apply_attention-IsSettled _ now db k
                  | inr (_, k) ↦ apply_ready-IsSettled reference.dump m db k
                ]
        ]

  settle_rejected-IsSettled :
      (e : Option ProviderError) (t : Option ℕ) (now : ℕ) (db : Database) {db' : Database}
      → settle_rejected claim e t now db ≡ ok (true, db')
      → IsSettled db'
  settle_rejected-IsSettled none t now db h = apply_rejected-IsSettled none now db h
  settle_rejected-IsSettled (some e) t now db h =
      elim (branch-eq e.retryable (release_transient claim e.code (retry_time e.retry_after t))
        (apply_rejected claim (some e) now) db h) [
          | inl (_, k) ↦ release_transient-IsSettled e.code _ db k
          | inr (_, k) ↦ apply_rejected-IsSettled (some e) now db k
        ]

  settle_ready-IsSettled :
      (deliver : String → Answer Manifest) (m : Option ManifestReference) (t : Option ℕ) (now : ℕ)
      (db : Database) {db' : Database}
      → settle_ready claim deliver m t now db ≡ ok (true, db')
      → IsSettled db'
  settle_ready-IsSettled deliver none t now db h = apply_attention-IsSettled _ now db h
  settle_ready-IsSettled deliver (some r) t now db h =
      verify_manifest-IsSettled r t now (deliver r.snapshot_id) db h

  settle_status-IsSettled :
      (fingerprint : Json → String) (deliver : String → Answer Manifest) (s : CandidateStatus)
      (r : Readiness) (t : Option ℕ) (now : ℕ) (db : Database) {db' : Database}
      → settle_status fingerprint claim deliver s r t now db ≡ ok (true, db')
      → IsSettled db'
  settle_status-IsSettled fingerprint deliver s Readiness.waiting t now db h =
      apply_waiting-IsSettled fingerprint s t db h
  settle_status-IsSettled fingerprint deliver s Readiness.rejected t now db h =
      settle_rejected-IsSettled s.error t now db h
  settle_status-IsSettled fingerprint deliver s Readiness.ready t now db h =
      settle_ready-IsSettled deliver s.manifest t now db h

  -- Once a claim has been settled with the result true, whatever the provider answered, the claim
  -- holds no more.
  pub settle-IsVoid :
      (fingerprint : Json → String) (deliver : String → Answer Manifest)
      (a : Answer CandidateStatus) (t : Option ℕ) (now : ℕ) (db : Database) {db' : Database}
      → settle fingerprint claim deliver a t now db ≡ ok (true, db')
      → IsVoid claim db'
  unfolding settle
  settle-IsVoid fingerprint deliver (raised code) t now db h =
      IsSettled-IsVoid _ (release_transient-IsSettled code t db h)
  settle-IsVoid fingerprint deliver (answered s) t now db h =
      IsSettled-IsVoid _ (settle_status-IsSettled fingerprint deliver s s.readiness t now db h)
