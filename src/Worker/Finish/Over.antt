-- ===== src/Worker/Finish/Over.antt =====
-- What the end of a run in worker/repository.py does to its steps, its lease and its lease's worker, row
-- by row.
use market_quorum.Prelude.{
  ℕ, ◌==◌, ◌≡◌, refl, ap, ◌∙◌, Bool, true, false, ◌&&◌, List, [], ◌∷◌, map, Option, none, some,
  String, arith, if◌then◌else◌, inl, inr, Option-cases, ==_iff,
}
use market_quorum.Prelude.Table.{Table, lookup, insert, lookup-insert, lookup-erase}
use market_quorum.Domain.Runs.{RunStatus}
use market_quorum.Store.{Database, AssessmentRun, StepStatus, RunStep, Worker, WorkerLease, idle}
use market_quorum.Worker.{update_worker}
use market_quorum.Worker.RunnerEvents.{finish_step}
use market_quorum.Worker.Finish.{released_workers}
use market_quorum.Worker.Finish.Ended.{IsEnded}

abbrev pub in_progress : StepStatus → Bool
in_progress StepStatus.running = true
in_progress StepStatus.completed = false
in_progress StepStatus.failed = false
in_progress StepStatus.cancelled = false

-- A running step of the attempt.
abbrev pub runs_step : ℕ → ℕ → RunStep → Bool
runs_step run_id attempt s = s.run_id == run_id && s.attempt == attempt && in_progress s.status

-- A step that runs has ended as told, and another one is as it was.
abbrev pub StepEnds : Bool → StepStatus → Option String → ℕ → RunStep → RunStep → Type 0
StepEnds false status code now s s' = s' ≡ s
StepEnds true status code now s s' =
    (s'.status ≡ status)
    × (s'.finished_at ≡ some now)
    × (s'.error_code ≡ code)
    × (record s' { status = s.status; finished_at = s.finished_at; error_code = s.error_code } ≡ s)

abbrev pub StepsEnd : ℕ → ℕ → StepStatus → Option String → ℕ → List RunStep → List RunStep → Type 0
StepsEnd run_id attempt status code now [] [] = Unit
StepsEnd run_id attempt status code now (s ∷ ss) (s' ∷ ss') =
    StepEnds (runs_step run_id attempt s) status code now s s'
    × StepsEnd run_id attempt status code now ss ss'
StepsEnd run_id attempt status code now _ _ = ⊥

abbrev pub idled : Option Worker → Option Worker
idled none = none
idled (some w) = some (record w { status = idle })

-- The lease's worker is idle, and every other one is as it was.
abbrev pub WorkerFreed : Option WorkerLease → Table Worker → Table Worker → Type 0
WorkerFreed none ws ws' = ws' ≡ ws
WorkerFreed (some lease) ws ws' =
    (j : ℕ) → lookup j ws' ≡ (if j == lease.worker_id then idled (lookup j ws) else lookup j ws)

pub record IsOver (run_id : ℕ) (run : AssessmentRun) (status : RunStatus) (step : StepStatus)
    (code : Option String) (now : ℕ) (db db' : Database) : Type 0 where
  pub run' : AssessmentRun
  pub ends : run'.status ≡ status
  pub finished : run'.finished_at ≡ some now
  pub attempt : run'.attempt ≡ run.attempt
  pub runs : db'.runs ≡ insert run_id run' db.runs
  pub steps : StepsEnd run_id run.attempt step code now db.steps db'.steps
  pub lease : lookup run_id db'.leases ≡ none
  pub other_leases :
      (j : ℕ) → lookup j db'.leases ≡ (if run_id == j then none else lookup j db.leases)
  pub worker : WorkerFreed (lookup run_id db.leases) db.workers db'.workers

finish_step-StepEnds :
    (run_id attempt : ℕ) (status : StepStatus) (code : Option String) (now : ℕ) (s : RunStep)
    (running : Bool)
    → runs_step run_id attempt s ≡ running
    → StepEnds running status code now s (finish_step run_id attempt status code now s)
finish_step-StepEnds run_id attempt status code now s true e = rw e (refl, refl, refl, refl)
finish_step-StepEnds run_id attempt status code now s false e = rw e refl

steps-StepsEnd :
    (run_id attempt : ℕ) (status : StepStatus) (code : Option String) (now : ℕ) (ss : List RunStep)
    → StepsEnd run_id attempt status code now ss
        (map (finish_step run_id attempt status code now) ss)
steps-StepsEnd run_id attempt status code now [] = tt
steps-StepsEnd run_id attempt status code now (s ∷ ss) = (
  finish_step-StepEnds run_id attempt status code now s _ refl,
  steps-StepsEnd run_id attempt status code now ss,
)

update_worker-idle :
    (k j : ℕ) (ws : Table Worker)
    → lookup j (update_worker k (λ w. record w { status = idle }) ws)
      ≡ (if j == k then idled (lookup j ws) else lookup j ws)
update_worker-idle k j ws = elim (Option-cases (lookup k ws)) [
  | inl missing ↦ ground (arith, ==_iff j k)
  | inr (w, found) ↦ ground (arith, ==_iff j k, lookup-insert j k (record w { status = idle }) ws)
]

released-WorkerFreed :
    (lease : Option WorkerLease) (db : Database)
    → WorkerFreed lease db.workers (released_workers lease db).workers
released-WorkerFreed none db = refl
released-WorkerFreed (some lease) db = λ j. update_worker-idle lease.worker_id j db.workers

pub IsEnded-IsOver :
    (run_id : ℕ) (run : AssessmentRun) (status : RunStatus) (step : StepStatus)
    (code : Option String) (now : ℕ) (db db' : Database)
    → IsEnded run_id run status step code now db db'
    → IsOver run_id run status step code now db db'
IsEnded-IsOver run_id run status step code now db db' e = record {
  run' = e.run';
  ends = e.ends;
  finished = e.finished;
  attempt = e.attempt;
  runs = e.runs;
  steps = rw e.steps (steps-StepsEnd run_id run.attempt step code now db.steps);
  lease = ap (lookup run_id) e.leases ∙ ground (arith, lookup-erase run_id run_id db.leases);
  other_leases = λ j. ap (lookup j) e.leases ∙ lookup-erase j run_id db.leases;
  worker = rw e.workers (released-WorkerFreed (lookup run_id db.leases) db);
}
