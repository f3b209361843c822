-- ===== src/Server/Error.antt =====
-- crates/assuan-server/src/error.rs and hooks.rs: failures of handlers and sessions, and the reason
-- given to the close hook (session.rs).
use assuan_library_rs.Prelude.{ℕ, Bytes, replicate, Result, ok, ◌>>=◌}
use assuan_library_rs.Protocol.Error.{ProtocolError, LimitError}
use assuan_library_rs.Protocol.State.Kinds.{StateError}
use assuan_library_rs.Protocol.Message
use assuan_library_rs.Protocol.Encode.{max_line_bytes, encode_response}
use assuan_library_rs.Transport.Error.{TransportError}

pub data RegistryError : Type 0 where
  invalid_name invalid_description : RegistryError
  reserved duplicate : Bytes → RegistryError

pub data HandlerError : Type 0 where
  remote : ℕ → Bytes → HandlerError
  internal : HandlerError
  transport : TransportError → HandlerError
  protocol : ProtocolError → HandlerError
  state : StateError → HandlerError
  limit : LimitError → HandlerError

pub data ServerError : Type 0 where
  transport : TransportError → ServerError
  protocol : ProtocolError → ServerError
  state : StateError → ServerError
  handler : HandlerError → ServerError
  invalid_options : ServerError

pub data SessionEnd : Type 0 where
  clean protocol transport cancelled timeout handler : SessionEnd

abbrev pub internal_code : ℕ
internal_code = 63

abbrev pub unknown_option : ℕ
unknown_option = 174

abbrev pub unknown_command : ℕ
unknown_command = 175

abbrev pub invalid_value : ℕ
invalid_value = 55

unfoldable pub validate_message : ℕ → Bytes → Result ProtocolError (Unit {0})
validate_message code message =
    (encode_response (Message.error code message) (replicate max_line_bytes 0)).1 >>= λ n. ok tt

-- `HandlerError::remote`.
unfoldable pub new_remote : ℕ → Bytes → Result ProtocolError HandlerError
unfolding validate_message
new_remote code message =
    validate_message code message >>= λ u. ok (HandlerError.remote code message)

unfoldable pub validate_remote : HandlerError → Result ProtocolError (Unit {0})
unfolding validate_message
validate_remote (HandlerError.remote code message) = validate_message code message
validate_remote _ = ok tt

-- The reason for a handler's error, and for a session's.
unfoldable pub handler_reason : HandlerError → SessionEnd
handler_reason (HandlerError.transport TransportError.timeout) = SessionEnd.timeout
handler_reason (HandlerError.protocol e) = SessionEnd.protocol
handler_reason (HandlerError.state e) = SessionEnd.protocol
handler_reason (HandlerError.transport (TransportError.protocol e)) = SessionEnd.protocol
handler_reason (HandlerError.transport e) = SessionEnd.transport
handler_reason _ = SessionEnd.handler

unfoldable pub end_reason : ServerError → SessionEnd
unfolding handler_reason
end_reason (ServerError.transport TransportError.timeout) = SessionEnd.timeout
end_reason (ServerError.protocol e) = SessionEnd.protocol
end_reason (ServerError.state e) = SessionEnd.protocol
end_reason (ServerError.transport (TransportError.protocol e)) = SessionEnd.protocol
end_reason (ServerError.transport e) = SessionEnd.transport
end_reason (ServerError.handler e) = handler_reason e
end_reason ServerError.invalid_options = SessionEnd.handler
