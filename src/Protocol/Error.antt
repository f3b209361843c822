-- ===== src/Protocol/Error.antt =====
-- crates/assuan-protocol/src/error.rs: the errors of the wire format and of bounded storage.
pub data LimitError : Type 0 where
  allocation_failed length_overflow capacity_exceeded : LimitError

pub data ProtocolError : Type 0 where
  invalid_line invalid_token invalid_response invalid_error_code : ProtocolError
  invalid_escape line_too_long unexpected_eof : ProtocolError
