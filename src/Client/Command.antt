-- ===== src/Client/Command.antt =====
-- crates/assuan-client/src/client.rs: the start of a command. `timely` says whether the deadline of the
-- command can be computed.
pub mod Drains
use assuan_library_rs.Prelude.{
  ℕ, zero, suc, Bool, true, false, [], ◌∷◌, Bytes, take, replicate, if◌then◌else◌, Result, ok, err,
}
use assuan_library_rs.Protocol.Error.{ProtocolError}
use assuan_library_rs.Protocol.Command.{Command}
use assuan_library_rs.Protocol.Encode.{max_line_bytes, encode_command}
use assuan_library_rs.Protocol.State.Kinds.{StateError, not_ready}
use assuan_library_rs.Protocol.State.Client.{ClientState, ClientMachine, begin_command}
use assuan_library_rs.Transport.Channel.{has_buffered_input}
use assuan_library_rs.Server.Inquiry.{bytes_ahead}
use assuan_library_rs.Client.Error.{ClientError, protocol, state, invalid_options}
use assuan_library_rs.Client.Core.{
  SessionCore, Outcome, invalidate, check, checked, Received, read, write,
}
use assuan_library_rs.Client.Transaction.{is_ready}

abbrev pub after_read : (SessionCore → Outcome (Unit {0})) → Outcome Received → Outcome (Unit {0})
after_read next (core, err e) = (core, err e)
after_read next (core, ok received) = next core

-- The lines that were read ahead are taken in while the machine is ready: a round takes a line.
unfoldable pub drain_from :
    (SessionCore → Outcome (Unit {0})) → ℕ → SessionCore → Outcome (Unit {0})
unfolding has_buffered_input
drain_from stuck zero core = stuck core
drain_from stuck (suc fuel) core =
    let drained = after_read (drain_from stuck fuel) (read core) in
    if has_buffered_input core.channel then drained else (core, ok tt)

abbrev pub after_begin :
    Bytes → SessionCore → ClientMachine × Result StateError (Unit {0}) → Outcome (Unit {0})
after_begin bytes core (m, err e) = (record core { machine = m }, err (state e))
after_begin bytes core (m, ok u) = write bytes (record core { machine = m })

abbrev pub start : Bytes → SessionCore → Outcome (Unit {0})
start bytes core =
    checked (λ c. after_begin bytes c (begin_command c.machine))
      (drain_from (λ c. (c, ok tt)) (suc (bytes_ahead core.channel)) core)

abbrev pub after_encode : Bool → SessionCore → Bytes × Result ProtocolError ℕ → Outcome (Unit {0})
after_encode timely core (encoded, err e) = (core, err (protocol e))
after_encode timely core (encoded, ok len) =
    if timely then start (take len encoded) core else (core, err invalid_options)

-- `Client::command_with`, whose transaction is that of the core, pending.
unfoldable pub command_with : Bool → Command → SessionCore → Outcome (Unit {0})
unfolding check invalidate drain_from write
command_with timely command core =
    checked
      (λ c.
        if is_ready c.machine.state
        then after_encode timely c (encode_command command (replicate max_line_bytes 0))
        else (invalidate c, err (state not_ready)))
      (check core)
