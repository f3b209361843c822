-- ===== src/Server/Turns.antt =====
-- crates/assuan-server/src/session.rs: whose turn it is, from the greeting through each round.
pub mod Drive
pub mod Busy
use assuan_library_rs.Prelude.{
  ℕ, zero, suc, ◌≡◌, refl, sym, ap, ◌∙◌, ◌⊎◌, inl, inr, Bool, true, false, arith, Option, none,
  some, [], Bytes, codes, bytes_eq, replicate, take, if◌then◌else◌, Result, ok, err,
}
use assuan_library_rs.Protocol.Error.{ProtocolError}
use assuan_library_rs.Protocol.Message.{ServerLine, okay}
use assuan_library_rs.Protocol.Message
use assuan_library_rs.Protocol.Encode.{max_line_bytes, encode_response}
use assuan_library_rs.Protocol.State.Kinds.{LineKind, RequestKind, StateError, kind}
use assuan_library_rs.Protocol.State.Server.{
  ServerState, greeting, ready, handler, inquiry, await_final, invalid, closed, ServerMachine,
  receive_request, send_response, on_request, on_response, invalidate,
}
use assuan_library_rs.Transport.Error.{TransportError}
use assuan_library_rs.Transport.Channel.{Channel, write_line}
use assuan_library_rs.Server.Error.{
  HandlerError, remote, internal, ServerError, validate_remote, internal_code,
}
use assuan_library_rs.Server.Context.{Io, expired, abandon}
use assuan_library_rs.Server.Final.{
  Ended, final_line, checked_remote, fatal, may_finish, result_of, after_write, after_response,
  after_encode, finalize_with, finalize_checked, finalize,
}
use assuan_library_rs.Server.Stable.{IsStable}
use assuan_library_rs.Server.Stable.Serves.{Finals}

-- The phases after the greeting, with where an inquiry comes from.
abbrev pub past : ServerState → ServerState → Bool
past greeting origin = false
past inquiry handler = true
past inquiry origin = false
past await_final handler = true
past await_final origin = false
past state origin = true

abbrev pub IsPast : ServerMachine → Type 0
IsPast m = past m.state m.inquiry_origin ≡ true

invalidate-IsPast : (m : ServerMachine) → IsPast m → IsPast (invalidate m)
unfolding invalidate
invalidate-IsPast m p = ground arith

receive_request-IsPast :
    (m : ServerMachine) (event : RequestKind) → IsPast m → IsPast (receive_request m event).0
unfolding receive_request
receive_request-IsPast m event p = ground arith

send_response-IsPast :
    (m : ServerMachine) (event : LineKind) → IsPast m → IsPast (send_response m event).0
unfolding send_response
send_response-IsPast m event p = ground arith

pub IsPast-IsStable : IsStable (λ io. IsPast io.machine)
unfolding abandon
IsPast-IsStable = record {
  responds = λ io event c. send_response-IsPast io.machine event;
  requests = λ io. receive_request-IsPast io.machine;
  writes = λ io bytes p. p;
  reads = λ io p. p;
  decodes = λ io bytes p. p;
  abandons = λ io. invalidate-IsPast io.machine;
}

pub IsPast-Finals : Finals (λ io. IsPast io.machine)
IsPast-Finals io = send_response-IsPast io.machine

after_write-IsReady :
    (first : Bool) (r : Result HandlerError (Unit {0})) (io : Io)
    (o : Channel × Result TransportError (Unit {0}))
    → (result_of first r ≡ ok tt → io.machine.state ≡ ready)
    → (after_write first r io o).1 ≡ ok tt
    → (after_write first r io o).0.machine.state ≡ ready
after_write-IsReady first r io (c, ok u) k e = k e
after_write-IsReady first r io (c, err x) k e = cc

after_response-IsReady :
    (first : Bool) (r : Result HandlerError (Unit {0})) (io : Io) (output : Bytes)
    (o : ServerMachine × Result StateError (Unit {0}))
    → (result_of first r ≡ ok tt → o.1 ≡ ok tt → o.0.state ≡ ready)
    → (after_response first r io output o).1 ≡ ok tt
    → (after_response first r io output o).0.machine.state ≡ ready
after_response-IsReady first r io output (m, ok u) k e =
    after_write-IsReady first r (record io { machine = m })
      (write_line (expired io) io.channel output) (λ f. k f refl) e
after_response-IsReady first r io output (m, err x) k e = cc

after_encode-IsReady :
    (first : Bool) (r : Result HandlerError (Unit {0})) (io : Io) (event : LineKind)
    (o : Bytes × Result ProtocolError ℕ)
    → (result_of first r ≡ ok tt
        → (send_response io.machine event).1 ≡ ok tt
        → (send_response io.machine event).0.state ≡ ready)
    → (after_encode first r io event o).1 ≡ ok tt
    → (after_encode first r io event o).0.machine.state ≡ ready
after_encode-IsReady first r io event (output, ok n) k e =
    after_response-IsReady first r io (take n output) (send_response io.machine event) k e
after_encode-IsReady first r io event (output, err x) k e = cc

-- An OK ends the phase it is permitted in, and an ERR too, once the client is greeted.
okay-IsReady :
    (m : ServerMachine)
    → (send_response m LineKind.okay).1 ≡ ok tt
    → (send_response m LineKind.okay).0.state ≡ ready
unfolding send_response
okay-IsReady m e = ground arith

error-IsReady :
    (m : ServerMachine)
    → IsPast m
    → (send_response m LineKind.error).1 ≡ ok tt
    → (send_response m LineKind.error).0.state ≡ ready
unfolding send_response
error-IsReady m p e = ground arith

-- What `finalize` may start from: the greeting, or a machine that is past it.
abbrev pub MayEnd : Bool → ServerMachine → Type 0
MayEnd true m = Unit
MayEnd false m = IsPast m

finalize_error-IsReady :
    (first : Bool) (error : HandlerError) (code : ℕ) (text : Bytes) (io : Io)
    → MayEnd first io.machine
    → (finalize_with first (err error) io (ok (Message.error code text))).1 ≡ ok tt
    → (finalize_with first (err error) io (ok (Message.error code text))).0.machine.state ≡ ready
unfolding kind
finalize_error-IsReady true error code text io p e =
    after_encode-IsReady true (err error) io LineKind.error
      (encode_response (Message.error code text) (replicate max_line_bytes 0)) (λ f g. cc) e
finalize_error-IsReady false error code text io p e =
    after_encode-IsReady false (err error) io LineKind.error
      (encode_response (Message.error code text) (replicate max_line_bytes 0))
      (λ f g. error-IsReady io.machine p g) e

finalize_remote-IsReady :
    (first : Bool) (code : ℕ) (text : Bytes) (io : Io) (v : Result ProtocolError (Unit {0}))
    → MayEnd first io.machine
    → (finalize_with first (err (remote code text)) io (checked_remote v code text)).1 ≡ ok tt
    → (finalize_with first (err (remote code text)) io (checked_remote v code text)).0.machine.state
      ≡ ready
finalize_remote-IsReady first code text io (ok u) p e =
    finalize_error-IsReady first (remote code text) code text io p e
finalize_remote-IsReady first code text io (err x) p e = cc

finalize_checked-IsReady :
    (b : Bool) (o : Ended (Unit {0})) (other : Io) (x : ServerError)
    → (o.1 ≡ ok tt → o.0.machine.state ≡ ready)
    → (if b then o else (other, err x)).1 ≡ ok tt
    → (if b then o else (other, err x)).0.machine.state ≡ ready
finalize_checked-IsReady true o other x k e = k e
finalize_checked-IsReady false o other x k e = cc

-- A final line that is sent leaves the machine between two commands: for the greeting, when the client
-- was let in; and for a command, whatever its handler returned.
pub finalize-IsReady :
    (r : Result HandlerError (Unit {0})) (first : Bool) (io : Io)
    → MayEnd first io.machine
    → (finalize r first io).1 ≡ ok tt
    → (finalize r first io).0.machine.state ≡ ready
unfolding finalize kind
finalize-IsReady (ok u) first io p e =
    finalize_checked-IsReady (may_finish io.machine.state)
      (finalize_with first (ok u) io (ok (okay []))) io (ServerError.state StateError.unusable)
      (after_encode-IsReady first (ok u) io LineKind.okay
        (encode_response (okay []) (replicate max_line_bytes 0)) (λ f. okay-IsReady io.machine))
      e
finalize-IsReady (err (remote code text)) first io p e =
    finalize_checked-IsReady (may_finish io.machine.state)
      (finalize_with first (err (remote code text)) io
        (checked_remote (validate_remote (remote code text)) code text))
      io (ServerError.state StateError.unusable)
      (finalize_remote-IsReady first code text io (validate_remote (remote code text)) p) e
finalize-IsReady (err internal) first io p e =
    finalize_checked-IsReady (may_finish io.machine.state)
      (finalize_with first (err internal) io
        (ok (Message.error internal_code (codes "internal error"))))
      io (ServerError.state StateError.unusable)
      (finalize_error-IsReady first internal internal_code (codes "internal error") io p) e
finalize-IsReady (err (HandlerError.transport x)) first io p e = cc
finalize-IsReady (err (HandlerError.protocol x)) first io p e = cc
finalize-IsReady (err (HandlerError.state x)) first io p e = cc
finalize-IsReady (err (HandlerError.limit x)) first io p e = cc
