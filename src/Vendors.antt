-- ===== src/Vendors.antt =====
-- platform/src/tradingng_platform/vendors: the requests to Alpha Vantage.
pub mod Retry
pub mod Notices
pub mod Fetch
pub mod Quota
