-- ===== src/Api.antt =====
-- The services of the API (api/src).
pub mod RateLimit
pub mod Stellar
pub mod Marketplace
pub mod Credits
pub mod Retirement
pub mod Webhooks
pub mod Auth
pub mod Bridge
pub mod Verifiers
pub mod RevenueSplit
pub mod Requests
pub mod Metrics
pub mod Certificates
pub mod Soroban
pub mod Health
pub mod AdminGuard
pub mod Samples
mod Tests
pub mod Reporting
