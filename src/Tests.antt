-- ===== src/Tests.antt =====
-- Runs of the definitions on small tables, and the theorems applied to them.
pub mod Sample
pub mod Admitting
pub mod Working
pub mod Cancelling
pub mod Deleting
pub mod Resolving
pub mod Breaking
pub mod Progressing
pub mod Waiting
pub mod Posting
pub mod Granting
pub mod Fetching
