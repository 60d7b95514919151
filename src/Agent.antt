-- ===== src/Agent.antt =====
-- crates/hope-agent: sampling, the Durable report queues and their delivery.
pub mod Queue
pub mod Sequence
pub mod Delivery
pub mod ChildDelivery
pub mod Telemetry
pub mod Children
