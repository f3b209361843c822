-- ===== src/Sexpr.antt =====
-- crates/assuan-sexpr: canonical S-expressions, parsed and written with explicit stacks.
pub mod Error
pub mod Limits
pub mod Value
pub mod Parser
pub mod Writer
pub mod Owned
mod Tests
