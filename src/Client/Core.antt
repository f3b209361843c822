-- ===== src/Client/Core.antt =====
-- crates/assuan-client/src/session.rs: reads and writes that keep the client's machine and its channel
-- together. A method returns the core beside its result; `expiries` answers the tests of the deadline.
pub mod Unusable
use assuan_library_rs.Prelude.{
  ℕ, ◌+◌, ◌-◌, Bool, true, false, ◌||◌, Option, none, some, List, [], ◌∷◌, Bytes, length, take,
  drop, if◌then◌else◌, Result, ok, err, unwrap_or,
}
use assuan_library_rs.Protocol.Error.{ProtocolError}
use assuan_library_rs.Protocol.Escape.{decode_data_in_place}
use assuan_library_rs.Protocol.Message.{
  ServerLine, okay, payload, status, inquire, comment, parse_server_line,
}
use assuan_library_rs.Protocol.Message
use assuan_library_rs.Protocol.Encode.{copy_at}
use assuan_library_rs.Protocol.State.Kinds.{LineKind, StateError, kind, unusable, greeting_rejected}
use assuan_library_rs.Protocol.State.Client.{ClientState, ClientMachine, receive}
use assuan_library_rs.Protocol.State.Client
use assuan_library_rs.Transport.Error.{TransportError}
use assuan_library_rs.Transport.Channel.{Channel, read_line, write_line, close}
use assuan_library_rs.Client.Error.{ClientError, protocol, transport, state}

pub record SessionCore : Type 0 where
  pub channel : Channel
  pub machine : ClientMachine
  pub io_uncertain : Bool
  pub expiries : List Bool

abbrev pub expired : SessionCore → Bool
expired core = elim core.expiries [ [] ↦ false | e ∷ es ↦ e ]

abbrev pub later : SessionCore → SessionCore
later core = record core { expiries = elim core.expiries [ [] ↦ [] | e ∷ es ↦ es ] }

abbrev pub Outcome {ℓ} : Type ℓ → Type ℓ
Outcome A = SessionCore × Result ClientError A

unfoldable pub invalidate : SessionCore → SessionCore
invalidate core = record core {
  machine = Client.invalidate core.machine;
  channel = close core.channel;
}

abbrev pub is_over : ClientState → Bool
is_over ClientState.invalid = true
is_over ClientState.closed = true
is_over _ = false

abbrev pub check_if : Bool → SessionCore → Outcome (Unit {0})
check_if true core = (invalidate core, err (state unusable))
check_if false core = (core, ok tt)

unfoldable pub check : SessionCore → Outcome (Unit {0})
unfolding invalidate
check core = check_if (core.io_uncertain || is_over core.machine.state) core

-- A range of the line's bytes: its start and its end.
abbrev pub Range : Type 0
Range = ℕ × ℕ

abbrev pub slice : Bytes → Range → Bytes
slice line (start, end) = take (end - start) (drop start line)

pub record Received : Type 0 where
  pub kind : LineKind
  pub code : Option ℕ
  pub payload : Range
  pub keyword : Range

abbrev pub suffix : Bytes → Bytes → Range
suffix line text = (length line - length text, length line)

abbrev pub located : LineKind → Option ℕ → Range → Range → Received
located event code rest name = record { kind = event; code = code; payload = rest; keyword = name }

abbrev pub locate : Bytes → ServerLine → Received
locate line (okay text) = located LineKind.okay none (suffix line text) (0, 0)
locate line (comment text) = located LineKind.comment none (suffix line text) (0, 0)
locate line (payload text) = located LineKind.payload none (suffix line text) (0, 0)
locate line (Message.error code text) = located LineKind.error (some code) (suffix line text) (0, 0)
locate line (status keyword args) =
    located LineKind.status none (suffix line args) (2, 2 + length keyword)
locate line (inquire keyword args) =
    located LineKind.inquire none (suffix line args) (8, 8 + length keyword)
locate line Message.end = located LineKind.end none (0, 0) (0, 0)
locate line Message.empty = located LineKind.empty none (0, 0) (0, 0)

-- What `classify` returns: the bytes of the line, the machine, and the result.
abbrev pub Classified : Type 0
Classified = Bytes × ClientMachine × Result ClientError Received

abbrev pub rejected : StateError → Option ℕ → ClientError
rejected StateError.greeting_rejected code = ClientError.greeting_rejected (unwrap_or code 0)
rejected e code = state e

abbrev pub after_receive :
    Bytes → Received → ClientMachine × Result StateError (Unit {0}) → Classified
after_receive line received (m, ok u) = (line, m, ok received)
after_receive line received (m, err e) = (line, m, err (rejected e received.code))

-- The decoded bytes of a data line, in its storage.
abbrev pub after_decode :
    Bytes → ClientMachine → Received → Result ProtocolError (Bytes × ℕ) → Classified
after_decode line m received (err e) = (line, m, err (protocol e))
after_decode line m received (ok (bytes, decoded)) =
    let start = received.payload.0 in
    after_receive (copy_at line start bytes)
      (record received { payload = (start, start + decoded) }) (receive m received.kind)

abbrev pub decoded : Bytes → ClientMachine → LineKind → Received → Classified
decoded line m LineKind.payload received =
    after_decode line m received (decode_data_in_place (slice line received.payload))
decoded line m _ received = after_receive line received (receive m received.kind)

abbrev pub after_parse : Bytes → ClientMachine → Result ProtocolError ServerLine → Classified
after_parse line m (err e) = (line, m, err (protocol e))
after_parse line m (ok parsed) = decoded line m (kind parsed) (locate line parsed)

unfoldable pub classify : Bytes → ClientMachine → Classified
classify line m = after_parse line m (parse_server_line line)

-- The line's storage after `classify`.
abbrev pub stored : Channel → Bytes → Channel
stored c line = record c { line = record c.line { storage = copy_at c.line.storage 0 line } }

abbrev pub after_classify : SessionCore → Classified → Outcome Received
after_classify core (line, m, ok received) = (
  record core { channel = stored core.channel line; machine = m; io_uncertain = false },
  ok received,
)
after_classify core (line, m, err e) = (
  invalidate (record core { channel = stored core.channel line; machine = m; io_uncertain = true }),
  err e,
)

abbrev pub after_read : SessionCore → Channel × Result TransportError Bytes → Outcome Received
after_read core (c, err e) =
    (invalidate (record (later core) { channel = c; io_uncertain = true }), err (transport e))
after_read core (c, ok line) =
    after_classify (record (later core) { channel = c }) (classify line core.machine)

abbrev pub checked {ℓ} : {A : Type ℓ} → (SessionCore → Outcome A) → Outcome (Unit {0}) → Outcome A
checked next (core, ok u) = next core
checked next (core, err e) = (core, err e)

unfoldable pub read : SessionCore → Outcome Received
unfolding check classify
read core = checked (λ c. after_read c (read_line (expired c) c.channel)) (check core)

abbrev pub after_write :
    SessionCore → Channel × Result TransportError (Unit {0}) → Outcome (Unit {0})
after_write core (c, err e) =
    (invalidate (record (later core) { channel = c; io_uncertain = true }), err (transport e))
after_write core (c, ok u) = (record (later core) { channel = c; io_uncertain = false }, ok tt)

unfoldable pub write : Bytes → SessionCore → Outcome (Unit {0})
unfolding check
write bytes core =
    checked (λ c. after_write c (write_line (expired c) c.channel bytes)) (check core)
