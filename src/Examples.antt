-- ===== src/Examples.antt =====
-- Tests, and the theorems at concrete inputs.
mod Base
mod Data
mod Enrollment
mod Revocation
mod Commands
mod Queue
mod Agent
mod Protocol
mod Server
mod Proxies
mod Outbox
mod Uptime
mod Reports
mod Children
mod Notify
