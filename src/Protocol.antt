-- ===== src/Protocol.antt =====
-- crates/assuan-protocol: parsing, encoding, framing and session state without I/O.
pub mod Error
pub mod Escape
pub mod Utf8
pub mod Command
pub mod Message
pub mod Encode
pub mod Frame
pub mod State
pub mod Wire
pub mod Secret
mod Tests
