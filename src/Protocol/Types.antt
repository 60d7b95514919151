-- ===== src/Protocol/Types.antt =====
-- The data types of crates/hope-protocol/src/lib.rs, in four groups. Integers of every width are
-- native numbers; a field that the program only stores keeps its place.
mod Telemetry
mod Children
mod Report
mod Devices
pub use Telemetry.*
pub use Children.*
pub use Report.*
pub use Devices.*
