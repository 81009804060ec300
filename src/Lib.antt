-- ===== src/Lib.antt =====
-- The platform's core: how an assessment of a ticker goes from a queued run to an ended one.
--
-- A run is a row of a database. The scheduler admits queued runs under limits of capacity, a worker
-- claims an admitted run, starts a runner for it and records what the runner reports, and the API's
-- service cancels and deletes runs. They share only the tables; each transaction is one function
-- here, from the tables to a result and the new tables, or to the error with which it raises and rolls
-- back.
--
-- Files, and the code they are about (paths under platform/src/tradingng_platform):
--   Prelude             shared helpers: tests on numbers, lists, tables by key, sorting, text, JSON
--   Domain/Runs         domain/runs.py: statuses and transitions; Values their texts, Progress what
--                       a sequence of transitions can do
--   Store               models/assessments.py, models/execution.py: the rows; Store/Tx the
--                       transactions and their errors; Store/Events append_event and append_audit
--                       of assessments/repository.py, Store/Numbering the numbers of events
--   Scheduler/Policy    scheduler/policy.py: the limits
--   Scheduler/Circuits  scheduler/circuits.py: samples of health and circuit breakers
--   Scheduler/Metadata, Scheduler/Snapshot, Scheduler/Admission
--                       scheduler/repository.py: `admit_one` and what it calls
--   Assessments         assessments/repository.py: creation of runs and retries;
--                       Assessments/Cancel `AssessmentService.cancel` of assessments/service.py;
--                       Assessments/Delete `AssessmentService.delete`, Assessments/Resolve
--                       `_resolve_stocklean_items`
--   Worker              worker/repository.py: claims, leases and heartbeats; Worker/RunnerEvents
--                       `persist_runner_event`, Worker/Finish `finalize_failure`,
--                       `finalize_cancelled` and `schedule_automatic_retry`, Worker/Recovery
--                       `recover_stale_leases`
--   DataReadiness       data_readiness/repository.py: the requirements that runs wait for, and
--                       their claims; DataReadiness/Settle the settling of a claim,
--                       DataReadiness/Reconcile the choices of data_readiness/service.py
--   Webhooks            webhooks/worker.py: the deliveries of events; Webhooks/Endpoint the check
--                       of an endpoint, Webhooks/Delivery one attempt, Webhooks/Enqueue and
--                       Webhooks/Queue the transactions, Webhooks/Run `run_once`
--   Vendors             vendors/alpha_vantage_broker.py: Vendors/Quota the leases of a key,
--                       Vendors/Quota/Dispatch the dispatcher's turn, Vendors/Quota/Run any
--                       sequence of calls and turns, Vendors/Fetch the attempts at a request;
--                       Vendors/Retry and Vendors/Notices parts of vendors/alpha_vantage.py
--   Lifecycle           the steps that these parts take on the shared tables
--   Tests               runs on small tables
--
-- How the code is read. A table is an association list from primary keys to rows, in the order of
-- insertion; a statement by key acts on the first row with the key, and the theorems that need it
-- assume that keys are unique. Identifiers are numbers, in the order that the database sorts them, and
-- those of new rows are arguments. Times count microseconds; readings of the machine count thousandths
-- of their unit. A row that another transaction has locked is told by a function, for `SKIP LOCKED`,
-- and so is a coordination lock that is held. Joins follow the keys and drop a row whose partner is
-- missing. An event type is the list of its segments. Texts that the code takes apart are lists of
-- code points. All loops run over lists, so nothing needs fuel.
--
-- Parameters, which stand for code that is not here or that reads the world: the digest of a document
-- (SHA-256 of its canonical text), the text of a date, the selection of a run's memory
-- (memory/repository.py), whether a process exists, the circuits that a vendor's adapter reports, the
-- answers of the data provider with the digest of a manifest's content, the digests that a submission
-- sends it, the client, the resolver and the cipher of a webhook, and what
-- a request of Alpha Vantage meets (a coordinator that stops, a client that raises, an answer, a cache
-- that raises), with the reading of JSON and of numbers.
--
-- Not modelled: isolation between transactions beyond the row locks and the coordination locks,
-- which the database gives; `finalize_success`, which reads the runner's files; views and paging;
-- the rows of validations, evidence and webhooks that a deletion takes with the run, and its files;
-- validation, integrity and identity; the services that edit webhooks and limits; the cache and the
-- shared requests of the broker for Alpha Vantage, and the adapters of other vendors. The step
-- relation of Lifecycle leaves out data readiness and the creation of runs.
pub mod Prelude
pub mod Domain
pub mod Scheduler
pub mod Webhooks
pub mod Vendors
pub mod Store
pub mod Assessments
pub mod Worker
pub mod DataReadiness
pub mod Lifecycle
pub mod Tests
