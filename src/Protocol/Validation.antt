-- ===== src/Protocol/Validation.antt =====
-- hope-protocol/src/validation.rs: the limits that the agent checks before it sends and the server
-- before it stores. Each test is written for what it accepts, where the source writes the refusal.
-- `uuid` is not modelled: the test whether a text is a UUID is a parameter.
pub mod Values
pub mod Metrics
pub mod Inventory
pub mod Batch
pub mod Groups
