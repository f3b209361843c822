-- ===== src/Client/Error.antt =====
-- crates/assuan-client/src/error.rs.
use assuan_library_rs.Prelude.{ℕ}
use assuan_library_rs.Protocol.Error.{ProtocolError, LimitError}
use assuan_library_rs.Protocol.State.Kinds.{StateError}
use assuan_library_rs.Transport.Error.{TransportError}

pub data ClientError : Type 0 where
  transport : TransportError → ClientError
  protocol : ProtocolError → ClientError
  state : StateError → ClientError
  remote greeting_rejected : ℕ → ClientError
  invalid_options incomplete : ClientError
  limit : LimitError → ClientError
