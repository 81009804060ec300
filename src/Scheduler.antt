-- ===== src/Scheduler.antt =====
-- platform/src/tradingng_platform/scheduler: admission of queued runs.
pub mod Policy
pub mod Circuits
pub mod Metadata
pub mod Snapshot
pub mod Admission
