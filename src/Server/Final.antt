-- ===== src/Server/Final.antt =====
-- crates/assuan-server/src/session.rs: the final line of a command or of the greeting.
pub mod Delivers
use assuan_library_rs.Prelude.{
  ℕ, Bool, true, false, Option, none, some, [], Bytes, codes, replicate, take, if◌then◌else◌,
  Result, ok, err,
}
use assuan_library_rs.Protocol.Error.{ProtocolError}
use assuan_library_rs.Protocol.Message.{ServerLine, okay}
use assuan_library_rs.Protocol.Message
use assuan_library_rs.Protocol.Encode.{max_line_bytes, encode_response}
use assuan_library_rs.Protocol.State.Kinds.{LineKind, StateError, unusable, kind}
use assuan_library_rs.Protocol.State.Server.{
  ServerState, greeting, handler, await_final, ServerMachine, send_response,
}
use assuan_library_rs.Transport.Error.{TransportError}
use assuan_library_rs.Transport.Channel.{Channel, write_line}
use assuan_library_rs.Server.Error.{
  HandlerError, remote, internal, ServerError, internal_code, validate_remote,
}
use assuan_library_rs.Server.Context.{Io, expired, later}

abbrev pub Ended {ℓ} : Type ℓ → Type ℓ
Ended A = Io × Result ServerError A

-- The final line for a handler's result.
abbrev pub checked_remote :
    Result ProtocolError (Unit {0}) → ℕ → Bytes → Result ServerError ServerLine
checked_remote (err e) code message = err (ServerError.protocol e)
checked_remote (ok u) code message = ok (Message.error code message)

unfoldable pub final_line : Result HandlerError (Unit {0}) → Result ServerError ServerLine
final_line (ok u) = ok (okay [])
final_line (err (remote code message)) =
    checked_remote (validate_remote (remote code message)) code message
final_line (err internal) = ok (Message.error internal_code (codes "internal error"))
final_line (err e) = err (ServerError.handler e)

abbrev pub is_fatal : HandlerError → Bool
is_fatal (remote code message) = false
is_fatal internal = false
is_fatal _ = true

abbrev pub may_finish : ServerState → Bool
may_finish greeting = true
may_finish handler = true
may_finish await_final = true
may_finish _ = false

abbrev pub result_of : Bool → Result HandlerError (Unit {0}) → Result ServerError (Unit {0})
result_of true (err e) = err (ServerError.handler e)
result_of _ _ = ok tt

abbrev pub after_write :
    Bool
    → Result HandlerError (Unit {0})
    → Io
    → Channel × Result TransportError (Unit {0})
    → Ended (Unit {0})
after_write first r io (c, err e) =
    (record (later io) { channel = c }, err (ServerError.transport e))
after_write first r io (c, ok u) = (record (later io) { channel = c }, result_of first r)

abbrev pub after_response :
    Bool
    → Result HandlerError (Unit {0})
    → Io
    → Bytes
    → ServerMachine × Result StateError (Unit {0})
    → Ended (Unit {0})
after_response first r io output (m, err e) = (record io { machine = m }, err (ServerError.state e))
after_response first r io output (m, ok u) =
    after_write first r (record io { machine = m }) (write_line (expired io) io.channel output)

abbrev pub after_encode :
    Bool
    → Result HandlerError (Unit {0})
    → Io
    → LineKind
    → Bytes × Result ProtocolError ℕ
    → Ended (Unit {0})
after_encode first r io event (output, err e) = (io, err (ServerError.protocol e))
after_encode first r io event (output, ok n) =
    after_response first r io (take n output) (send_response io.machine event)

abbrev pub finalize_with :
    Bool → Result HandlerError (Unit {0}) → Io → Result ServerError ServerLine → Ended (Unit {0})
finalize_with first r io (err e) = (io, err e)
finalize_with first r io (ok line) =
    after_encode first r io (kind line) (encode_response line (replicate max_line_bytes 0))

abbrev pub finalize_checked : Bool → Result HandlerError (Unit {0}) → Io → Ended (Unit {0})
finalize_checked first r io =
    if may_finish io.machine.state
    then finalize_with first r io (final_line r)
    else (io, err (ServerError.state unusable))

abbrev pub fatal : Result HandlerError (Unit {0}) → Option HandlerError
fatal (ok u) = none
fatal (err e) = if is_fatal e then some e else none

abbrev pub finalize_unless :
    Option HandlerError → Result HandlerError (Unit {0}) → Bool → Io → Ended (Unit {0})
finalize_unless (some e) r first io = (io, err (ServerError.handler e))
finalize_unless none r first io = finalize_checked first r io

unfoldable pub finalize : Result HandlerError (Unit {0}) → Bool → Io → Ended (Unit {0})
unfolding final_line
finalize r first io = finalize_unless (fatal r) r first io
