-- ===== src/Protocol.antt =====
-- crates/hope-protocol: the wire contract that the agent and the server share.
pub mod Types
pub mod Validation
pub mod Version
pub mod Storage
