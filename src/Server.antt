-- ===== src/Server.antt =====
-- crates/assuan-server/src: the registry of commands, requests, and sessions.
pub mod Error
pub mod Registry
pub mod Request
pub mod Hooks
pub mod Context
pub mod Inquiry
pub mod Program
pub mod Policies
pub mod Builtins
pub mod Options
pub mod Stable
pub mod Turns
pub mod Fuel
pub mod Final
pub mod Session
mod Tests
