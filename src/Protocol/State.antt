-- ===== src/Protocol/State.antt =====
-- crates/assuan-protocol/src/state: the session machines of both ends.
pub mod Kinds
pub mod Server
pub mod Client
pub mod Balance
pub mod Lockstep
mod Tests
