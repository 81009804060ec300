-- ===== src/Scheduler/Admission/Frames.antt =====
-- What the pieces of `admit_one` of scheduler/repository.py leave as it is, and the row that they write.
use mathlib.Core.Path.{subst}
use market_quorum.Prelude.{ℕ, ◌+◌, ◌≡◌, refl, ◌∙◌, ap, Option, some, arith}
use market_quorum.Prelude.Table.{insert}
use market_quorum.Prelude.Json.{Fields, get}
use market_quorum.Domain.Runs.{admitted}
use market_quorum.Store.{Database, AssessmentRun}
use market_quorum.Store.Tx.{ok, >>=-eq-ok, or_raise-eq-ok, value_error}
use market_quorum.Scheduler.Policy.{GatewaySnapshot}
use market_quorum.Scheduler.Metadata.{ExecutionMetadata}
use market_quorum.Scheduler.Snapshot.{
  MemoryMode, ModelRoutingPolicy, BuiltRunSnapshot, build_run_snapshot, MemorySnapshot,
}
use market_quorum.Scheduler.Admission.{Candidate}
use market_quorum.Scheduler.Admission.Admit.{
  Services, memory_mode_of, memory_of, admit_snapshot, admit_configured, admit_in_mode,
  request_config, pin_snapshot, mark_admitted, admit_candidate, take_probes,
}

-- The tables that say which runs there are, and for what, are the same.
pub record IsFrame (db db' : Database) : Type 0 where
  pub runs : db'.runs ≡ db.runs
  pub requests : db'.requests ≡ db.requests
  pub instruments : db'.instruments ≡ db.instruments
  pub leases : db'.leases ≡ db.leases

pub IsFrame-refl : {db : Database} → IsFrame db db
IsFrame-refl = record { runs = refl; requests = refl; instruments = refl; leases = refl }

pin_snapshot-IsFrame :
    (new_id : ℕ) (built : BuiltRunSnapshot) (gateway : GatewaySnapshot) (db : Database) {id : ℕ}
    {db' : Database}
    → pin_snapshot new_id built gateway db ≡ ok (id, db')
    → IsFrame db db'
unfolding pin_snapshot
pin_snapshot-IsFrame new_id built gateway db h = ground arith

pub take_probes-IsFrame :
    (metadata : ExecutionMetadata) (now : ℕ) (db : Database) {u : Unit {0}} {db' : Database}
    → take_probes metadata now db ≡ ok (u, db')
    → IsFrame db db'
unfolding take_probes
take_probes-IsFrame metadata now db h = ground arith

request_config-reads :
    (services : Services) (c : Candidate) (mode : MemoryMode) (db : Database) {config : Fields}
    {db' : Database}
    → request_config services c mode db ≡ ok (config, db')
    → db' ≡ db
unfolding request_config
request_config-reads services c mode db h = ground arith

-- The run of the candidate is admitted, and no other row of the tables is touched.
pub record IsMarked (db : Database) (c : Candidate) (db' : Database) : Type 0 where
  pub run' : AssessmentRun
  pub same_request : run'.request_id ≡ c.run.request_id
  pub admits : run'.status ≡ admitted
  pub runs : db'.runs ≡ insert c.run_id run' db.runs
  pub requests : db'.requests ≡ db.requests
  pub instruments : db'.instruments ≡ db.instruments
  pub leases : db'.leases ≡ db.leases

mark_admitted-IsMarked :
    (c : Candidate) (id : ℕ) (built : BuiltRunSnapshot) (memory : MemorySnapshot) (now : ℕ)
    (db : Database) {u : Unit {0}} {db' : Database}
    → mark_admitted c id built memory now db ≡ ok (u, db')
    → IsMarked db c db'
unfolding mark_admitted
mark_admitted-IsMarked c id built memory now db h = record {
  run' = record c.run {
    config_snapshot_id = some id;
    status = admitted;
    admitted_at = some now;
    version = c.run.version + 1;
  };
  same_request = refl;
  admits = refl;
  runs = ground arith;
  requests = ground arith;
  instruments = ground arith;
  leases = ground arith;
}

pub IsFrame-IsMarked :
    {db db' db'' : Database} {c : Candidate}
    → IsFrame db db'
    → IsMarked db' c db''
    → IsMarked db c db''
IsFrame-IsMarked {c = c} f m = record {
  run' = m.run';
  same_request = m.same_request;
  admits = m.admits;
  runs = m.runs ∙ ap (insert c.run_id m.run') f.runs;
  requests = m.requests ∙ f.requests;
  instruments = m.instruments ∙ f.instruments;
  leases = m.leases ∙ f.leases;
}

admit_snapshot-IsMarked :
    (c : Candidate) (gateway : GatewaySnapshot) (new_id now : ℕ) (memory : MemorySnapshot)
    (built : BuiltRunSnapshot) (db : Database) {u : Unit {0}} {db' : Database}
    → admit_snapshot c gateway new_id now memory built db ≡ ok (u, db')
    → IsMarked db c db'
admit_snapshot-IsMarked c gateway new_id now memory built db h =
    let (id, db1, e, k) =
      >>=-eq-ok (pin_snapshot new_id built gateway) (λ id. mark_admitted c id built memory now) db
        h in
    IsFrame-IsMarked (pin_snapshot-IsFrame new_id built gateway db e)
      (mark_admitted-IsMarked c id built memory now db1 k)

module _ (services : Services) (c : Candidate) (gateway : GatewaySnapshot)
    (metadata : ExecutionMetadata) (routing : Option ModelRoutingPolicy) (new_id now : ℕ) where
  admit_configured-IsMarked :
      (mode : MemoryMode) (config : Fields) (db : Database) {u : Unit {0}} {db' : Database}
      → admit_configured services c gateway metadata routing new_id now mode config db ≡ ok (u, db')
      → IsMarked db c db'
  admit_configured-IsMarked mode config db h =
      let memory = memory_of services c gateway metadata routing new_id now mode db in
      let (built, e, k) =
        or_raise-eq-ok (build_run_snapshot services.digest config gateway metadata memory routing)
          (value_error "Depth") (admit_snapshot c gateway new_id now memory) db h in
      admit_snapshot-IsMarked c gateway new_id now memory built db k

  admit_in_mode-IsMarked :
      (mode : MemoryMode) (db : Database) {u : Unit {0}} {db' : Database}
      → admit_in_mode services c gateway metadata routing new_id now mode db ≡ ok (u, db')
      → IsMarked db c db'
  admit_in_mode-IsMarked mode db {db' = db'} h =
      let (config, db1, e, k) =
        >>=-eq-ok (request_config services c mode)
          (admit_configured services c gateway metadata routing new_id now mode) db h in
      subst (λ d. IsMarked d c db') (request_config-reads services c mode db e)
        (admit_configured-IsMarked mode config db1 k)

  pub admit_candidate-IsMarked :
      (db : Database) {u : Unit {0}} {db' : Database}
      → admit_candidate services c gateway metadata routing new_id now db ≡ ok (u, db')
      → IsMarked db c db'
  unfolding admit_candidate
  admit_candidate-IsMarked db h =
      let (mode, e, k) =
        or_raise-eq-ok (memory_mode_of (get "memory_mode" c.batch.defaults_json))
          (value_error "MemoryMode") (admit_in_mode services c gateway metadata routing new_id now)
          db h in
      admit_in_mode-IsMarked mode db k
