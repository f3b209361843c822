-- ===== src/Server/Context.antt =====
-- crates/assuan-server/src/context.rs: what a handler or a hook may send. An operation that does not
-- complete invalidates the machine and closes the channel.
pub mod Payload
use assuan_library_rs.Prelude.{
  ℕ, zero, suc, Bool, true, false, List, [], ◌∷◌, Bytes, length, take, drop, replicate, is_empty,
  if◌then◌else◌, Result, ok, err,
}
use assuan_library_rs.Protocol.Message.{ServerLine}
use assuan_library_rs.Protocol.Message
use assuan_library_rs.Protocol.Encode.{max_line_bytes, encode_response, encode_data_chunk}
use assuan_library_rs.Protocol.Error.{ProtocolError, LimitError}
use assuan_library_rs.Protocol.State.Kinds.{LineKind, StateError, kind}
use assuan_library_rs.Protocol.State.Server.{ServerMachine, send_response, invalidate}
use assuan_library_rs.Transport.Error.{TransportError}
use assuan_library_rs.Transport.Channel.{Channel, write_line, close}
use assuan_library_rs.Server.Error.{HandlerError, transport, protocol, state}

-- The channel and the machine of a session. `expiries` answers the tests of the deadline, in order;
-- when none is left, the deadline has not passed.
pub record Io : Type 0 where
  pub channel : Channel
  pub machine : ServerMachine
  pub expiries : List Bool

abbrev pub expired : Io → Bool
expired io = elim io.expiries [ [] ↦ false | e ∷ es ↦ e ]

abbrev pub later : Io → Io
later io = record io { expiries = elim io.expiries [ [] ↦ [] | e ∷ es ↦ es ] }

abbrev pub Done {ℓ} : Type ℓ → Type ℓ
Done A = Io × Result HandlerError A

-- `IoOperation`, dropped before it is complete.
unfoldable pub abandon : Io → Io
abandon io = record io { channel = close io.channel; machine = invalidate io.machine }

-- `machine.send_response(kind)`.
abbrev pub after_response :
    (Io → Done (Unit {0})) → Io → ServerMachine × Result StateError (Unit {0}) → Done (Unit {0})
after_response next io (m, ok u) = next (record io { machine = m })
after_response next io (m, err e) = (abandon (record io { machine = m }), err (state e))

-- `channel.write_line(..)`.
abbrev pub after_write :
    (Io → Done (Unit {0})) → Io → Channel × Result TransportError (Unit {0}) → Done (Unit {0})
after_write next io (c, ok u) = next (record (later io) { channel = c })
after_write next io (c, err e) = (abandon (record (later io) { channel = c }), err (transport e))

abbrev pub write : Io → Bytes → (Io → Done (Unit {0})) → Done (Unit {0})
write io bytes next = after_write next io (write_line (expired io) io.channel bytes)

-- A line encoded into zeroed storage, permitted by the machine, and written.
abbrev pub after_encode : ServerLine → Io → Bytes × Result ProtocolError ℕ → Done (Unit {0})
after_encode line io (output, err e) = (abandon io, err (protocol e))
after_encode line io (output, ok n) =
    after_response (λ io'. write io' (take n output) (λ done. (done, ok tt))) io
      (send_response io.machine (kind line))

unfoldable pub send_line : ServerLine → Io → Done (Unit {0})
unfolding abandon
send_line line io = after_encode line io (encode_response line (replicate max_line_bytes 0))

unfoldable pub send_status : Bytes → Bytes → Io → Done (Unit {0})
unfolding send_line
send_status keyword args io = send_line (Message.status keyword args) io

-- The loop of `send_data`: a chunk of a nonempty input takes a byte at least, so that one round more
-- than the input has bytes is enough.
abbrev pub after_chunk :
    (Bytes → Io → Done (Unit {0}))
    → Bytes
    → Io
    → Bytes × Result ProtocolError (ℕ × ℕ)
    → Done (Unit {0})
after_chunk next remaining io (output, err e) = (abandon io, err (protocol e))
after_chunk next remaining io (output, ok (consumed, written)) =
    write io (take written output) (λ io'.
      if is_empty (drop consumed remaining)
      then (io', ok tt)
      else next (drop consumed remaining) io')

unfoldable pub data_loop : ℕ → Bytes → Io → Done (Unit {0})
unfolding abandon
data_loop zero remaining io = (io, ok tt)
data_loop (suc fuel) remaining io =
    after_chunk (data_loop fuel) remaining io
      (encode_data_chunk remaining (replicate max_line_bytes 0))

unfoldable pub send_data : Bytes → Io → Done (Unit {0})
unfolding data_loop
send_data bytes io =
    after_response (data_loop (suc (length bytes)) bytes) io
      (send_response io.machine LineKind.payload)
