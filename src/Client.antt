-- ===== src/Client.antt =====
-- crates/assuan-client/src: a session from the client's side.
pub mod Error
pub mod Core
pub mod Inquiry
pub mod Transaction
pub mod Command
pub mod Collect
mod Tests
