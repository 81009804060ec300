-- ===== src/Domain.antt =====
-- The domain enumerations of platform/src/tradingng_platform/domain.
pub mod Runs
