-- ===== src/Server/Final/Delivers.antt =====
-- crates/assuan-server/src/session.rs: `finalize`, from the result to the line that the client
-- parses.
use assuan_library_rs.Prelude.{
  ℕ, ◌≤◌, ◌≡◌, refl, ap, ◌∙◌, ◌⊎◌, inl, inr, Bool, true, false, arith, none, List, [], ◌∷◌, ◌++◌,
  Bytes, codes, replicate, length-replicate, take, if◌then◌else◌, ◌>>=◌, Result, ok, err,
  decimal_loop, u32_max,
}
use assuan_library_rs.Protocol.Error.{ProtocolError}
use assuan_library_rs.Protocol.Command.{validate_line}
use assuan_library_rs.Protocol.Message.{ServerLine, okay, parse_server_line}
use assuan_library_rs.Protocol.Message
use assuan_library_rs.Protocol.Encode.{
  max_line_bytes, Written, encode_response, write_parts, measure_parts, copy_parts, write_optional,
  code_digits,
}
use assuan_library_rs.Protocol.Encode.RoundTrip.{HasCode, parse_server_line-encode_response}
use assuan_library_rs.Protocol.Encode.Write.{sent}
use assuan_library_rs.Protocol.State.Kinds.{LineKind, StateError, kind}
use assuan_library_rs.Protocol.State.Server.{
  ServerState, greeting, handler, await_final, ServerMachine, send_response,
}
use assuan_library_rs.Protocol.Wire.{take-Wrote}
use assuan_library_rs.Transport.Error.{TransportError}
use assuan_library_rs.Transport.Stream.{Stream, Write}
use assuan_library_rs.Transport.Channel.{Channel, write_line}
use assuan_library_rs.Transport.Channel.Writing.{sent_on, write_line-sent_on}
use assuan_library_rs.Transport.Exchange.{Takes}
use assuan_library_rs.Server.Error.{
  HandlerError, remote, internal, ServerError, validate_remote, validate_message,
}
use assuan_library_rs.Server.Context.{Io, expired, later}
use assuan_library_rs.Server.Final.{
  final_line, checked_remote, fatal, may_finish, result_of, after_write, after_response,
  after_encode, finalize_with, finalize_unless, finalize,
}

abbrev storage : Bytes
storage = replicate max_line_bytes 0

-- The answer that a result of a handler is owed: an OK without text; the error that the handler chose,
-- where the encoder accepts its line and its code is a `u32`; or 63 and a fixed text, which tell
-- nothing of an internal failure.
pub data Answers : Result HandlerError (Unit {0}) → ServerLine → Type 0 where
  success : Answers (ok tt) (okay [])
  failure :
      (code : ℕ) (text : Bytes) (size : ℕ)
      → code ≤ u32_max
      → (encode_response (Message.error code text) storage).1 ≡ ok size
      → Answers (err (remote code text)) (Message.error code text)
  hidden : Answers (err internal) (Message.error 63 (codes "internal error"))

-- Whether the session goes on: after every command, and after a greeting that let the client in.
pub data GoesOn
    : Bool → Result HandlerError (Unit {0}) → Result ServerError (Unit {0}) → Type 0 where
  answered : (r : Result HandlerError (Unit {0})) → GoesOn false r (ok tt)
  admitted : GoesOn true (ok tt) (ok tt)
  turned_away : (e : HandlerError) → GoesOn true (err e) (err (ServerError.handler e))

-- The phases that a final line may end.
abbrev pub IsOwed : ServerState → Type 0
IsOwed s = (s ≡ greeting) ⊎ ((s ≡ handler) ⊎ (s ≡ await_final))

-- A final line that fits, and what `finalize` makes of the result.
record Prepared (r : Result HandlerError (Unit {0})) (line : ServerLine) : Type 0 where
  size : ℕ
  encodes : (encode_response line storage).1 ≡ ok size
  ends : (kind line ≡ LineKind.okay) ⊎ (kind line ≡ LineKind.error)
  code : HasCode line
  chosen : final_line r ≡ ok line
  harmless : fatal r ≡ none

validated :
    (code : ℕ) (text : Bytes) {size : ℕ}
    → (encode_response (Message.error code text) storage).1 ≡ ok size
    → final_line (err (remote code text)) ≡ ok (Message.error code text)
unfolding final_line validate_remote validate_message
validated code text e = ap (λ z. checked_remote (z >>= λ n. ok tt) code text) e

Answers-Prepared :
    {r : Result HandlerError (Unit {0})} {line : ServerLine} → Answers r line → Prepared r line
unfolding encode_response write_optional write_parts measure_parts copy_parts code_digits
    decimal_loop validate_line kind final_line
Answers-Prepared success = record {
  size = 3;
  encodes = refl;
  ends = inl refl;
  code = tt;
  chosen = refl;
  harmless = refl;
}
Answers-Prepared (failure code text size c e) = record {
  size = size;
  encodes = e;
  ends = inr refl;
  code = c;
  chosen = validated code text e;
  harmless = refl;
}
Answers-Prepared hidden = record {
  size = 22;
  encodes = refl;
  ends = inr refl;
  code = omega arith;
  chosen = refl;
  harmless = refl;
}

GoesOn-result :
    {first : Bool} {r : Result HandlerError (Unit {0})} {verdict : Result ServerError (Unit {0})}
    → GoesOn first r verdict
    → result_of first r ≡ verdict
GoesOn-result (answered r) = refl
GoesOn-result admitted = refl
GoesOn-result (turned_away e) = refl

owed_finish : (s : ServerState) → IsOwed s → may_finish s ≡ true
owed_finish s (inl e) = rw e refl
owed_finish s (inr (inl e)) = rw e refl
owed_finish s (inr (inr e)) = rw e refl

-- A machine that may finish permits both final lines.
permits_final :
    (m : ServerMachine) (event : LineKind)
    → may_finish m.state ≡ true
    → (event ≡ LineKind.okay) ⊎ (event ≡ LineKind.error)
    → (send_response m event).1 ≡ ok tt
unfolding send_response
permits_final m event may (inl e) = rw e (ground arith)
permits_final m event may (inr e) = rw e (ground arith)

after_write_sent :
    (first : Bool) (r : Result HandlerError (Unit {0})) (io : Io)
    (o : Channel × Result TransportError (Unit {0})) {c : Channel}
    → o ≡ (c, ok tt)
    → after_write first r io o ≡ (record (later io) { channel = c }, result_of first r)
after_write_sent first r io o e = ap (after_write first r io) e

after_response_sent :
    (first : Bool) (r : Result HandlerError (Unit {0})) (io : Io) (output : Bytes)
    (o : ServerMachine × Result StateError (Unit {0})) {c : Channel}
    → o.1 ≡ ok tt
    → write_line (expired io) io.channel output ≡ (c, ok tt)
    → after_response first r io output o
      ≡ (record (later io) { channel = c; machine = o.0 }, result_of first r)
after_response_sent first r io output (m, ok u) e w =
    after_write_sent first r (record io { machine = m }) (write_line (expired io) io.channel output)
      w
after_response_sent first r io output (m, err x) e w = cc

same_count : {k n : ℕ} → ◌≡◌ {A = Result ProtocolError ℕ} (ok k) (ok n) → k ≡ n
same_count e = cc

after_encode_sent :
    (first : Bool) (r : Result HandlerError (Unit {0})) (io : Io) (event : LineKind) (o : Written ℕ)
    {n : ℕ} {c : Channel}
    → o.1 ≡ ok n
    → (send_response io.machine event).1 ≡ ok tt
    → write_line (expired io) io.channel (take n o.0) ≡ (c, ok tt)
    → after_encode first r io event o ≡ (
      record (later io) { channel = c; machine = (send_response io.machine event).0 },
      result_of first r,
    )
after_encode_sent first r io event (output, ok k) {n} e m w =
    after_response_sent first r io (take k output) (send_response io.machine event) m
      (rw (same_count e) w)
after_encode_sent first r io event (output, err x) e m w = cc

finalize_line :
    (r : Result HandlerError (Unit {0})) (first : Bool) (io : Io) {line : ServerLine}
    → fatal r ≡ none
    → may_finish io.machine.state ≡ true
    → final_line r ≡ ok line
    → finalize r first io ≡ after_encode first r io (kind line) (encode_response line storage)
unfolding finalize
finalize_line r first io f may e =
    ap (λ z. finalize_unless z r first io) f
    ∙ ap
        (λ z.
          if z
          then finalize_with first r io (final_line r)
          else (io, err (ServerError.state StateError.unusable)))
        may
    ∙ ap (finalize_with first r io) e

-- A result that is no failure of the connection is answered by one final line: when a greeting or a
-- command is owed its end, the deadline has not passed and the stream takes the line, the line that
-- the result is owed (`Answers`) is written whole, the machine takes it as sent, and the other end
-- parses its text as that same line; the session goes on, but for a greeting that failed, which ends
-- it with the failure (`GoesOn`).
pub finalize_delivers :
    (r : Result HandlerError (Unit {0})) (first : Bool) (io : Io) (line : ServerLine)
    (verdict : Result ServerError (Unit {0})) (s : Stream) (writes : List Write)
    → Answers r line
    → GoesOn first r verdict
    → IsOwed io.machine.state
    → expired io ≡ false
    → Takes io.channel s writes
    → (text : Bytes) × (finalize r first io ≡ (
      record (later io) {
        channel = sent_on io.channel s (text ++ b'\n' ∷ []) writes;
        machine = (send_response io.machine (kind line)).0;
      },
      verdict,
    ))
      × (parse_server_line text ≡ ok line)
finalize_delivers r first io line verdict s writes answers goes owed time can =
    let final = Answers-Prepared answers in
    let may = owed_finish io.machine.state owed in
    let (w, parsed) =
      parse_server_line-encode_response line storage final.size
        (length-replicate {A = ℕ} max_line_bytes 0) final.code final.encodes in
    let text = sent final.size (encode_response line storage).0 in
    let written =
      write_line-sent_on io.channel s text writes can.stream can.size can.takes w.clean
        (omega (arith, w.size, w.fits)) in
    (
      text,
      rw (← GoesOn-result goes) (
          finalize_line r first io final.harmless may final.chosen
          ∙ after_encode_sent first r io (kind line) (encode_response line storage) final.encodes
              (permits_final io.machine (kind line) may final.ends)
              (rw (time, take-Wrote w) written)),
      parsed,
    )
