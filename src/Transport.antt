-- ===== src/Transport.antt =====
-- crates/assuan-transport/src: lines read from and written to a stream.
pub mod Error
pub mod Stream
pub mod Channel
pub mod Exchange
mod Tests
