-- ===== src/Server.antt =====
-- hope-server: the parts of the server that are modelled.
pub mod Limiter
pub mod Proxies
pub mod Outbox
pub mod Uptime
pub mod Errors
pub mod Database
pub mod Updates
pub mod Rollout
pub mod Addresses
pub mod Ingestion
pub mod Enrollment
pub mod Tokens
pub mod Revocation
pub mod Commands
pub mod Children
pub mod Notify
