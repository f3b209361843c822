-- ===== src/Server/Tests.antt =====
-- Sessions over concrete streams.
use assuan_library_rs.Prelude.{
  inr, inl, ℕ, ◌<◌, ◌≡◌, refl, ◌⊎◌, Bool, true, false, none, some, [], ◌∷◌, ◌++◌, Bytes, codes,
  bytes_eq, replicate, if◌then◌else◌, Result, ok, err, arith, decimal_loop,
}
use assuan_library_rs.Protocol.Command.{Command, parse, validate_line, validate_token, split_field}
use assuan_library_rs.Protocol.Command
use assuan_library_rs.Protocol.Message.{ServerLine, okay, parse_server_line}
use assuan_library_rs.Protocol.Message
use assuan_library_rs.Protocol.Encode.{
  max_line_bytes, encode_response, write_optional, write_parts, measure_parts, copy_parts,
  code_digits, write_keyword, encode_data_chunk, chunk_loop,
}
use assuan_library_rs.Protocol.Utf8.{from_utf8}
use assuan_library_rs.Protocol.Frame
use assuan_library_rs.Protocol.Frame.{zeros, feed, feed_loop, line}
use assuan_library_rs.Protocol.State.Kinds.{kind}
use assuan_library_rs.Protocol.State.Server.{
  ServerState, handler, greeting, ServerMachine, send_response, receive_request,
}
use assuan_library_rs.Protocol.State.Server
use assuan_library_rs.Transport.Stream.{Stream, got, flushed}
use assuan_library_rs.Transport.Channel
use assuan_library_rs.Transport.Channel.{
  drain, receive_loop, receive, read_line_or_eof, strip_suffix, check_line, write_line,
}
use assuan_library_rs.Transport.Channel.Writing.{sent_on}
use assuan_library_rs.Transport.Exchange.{Takes}
use assuan_library_rs.Server.Error.{HandlerError, RegistryError, remote, ServerError}
use assuan_library_rs.Server.Registry.{Handler, Registry, get, register}
use assuan_library_rs.Server.Registry.Names
use assuan_library_rs.Server.Registry.Names.{register-IsValid}
use assuan_library_rs.Server.Registry.Laws.{register-get}
use assuan_library_rs.Server.Request.{request_kind}
use assuan_library_rs.Server.Context.{Io, later, send_line, send_status, send_data, data_loop}
use assuan_library_rs.Server.Context.Payload.{Flows, Sent, send_data-Sent}
use assuan_library_rs.Server.Inquiry.{Inquiry, bytes_ahead, next_from, failed}
use assuan_library_rs.Server.Program.{Program, run_program}
use assuan_library_rs.Server.Policies.{default_hooks}
use assuan_library_rs.Server.Final.{final_line, finalize}
use assuan_library_rs.Server.Final.Delivers.{failure, answered, finalize_delivers}
use assuan_library_rs.Server.Options.{default, deadline, validate}
use assuan_library_rs.Server.Options.Valid
use assuan_library_rs.Server.Options.Valid.{validate-eq-ok}
use assuan_library_rs.Server.Session.{
  Session, Handlers, await_from, dispatch, serve, serve_from, greet, drive,
}
use assuan_library_rs.Server.Session
use assuan_library_rs.Server.Turns.Busy.{IsBusy, dispatch-IsBusy}
use assuan_library_rs.Server.Turns.Drive.{IsReady, drive-IsReady}
use assuan_library_rs.Server.Fuel.Enough.{next_from_enough, serve_from_enough}

-- Two commands, the second of which ends the session.
abbrev client : Stream
client = record {
  reads = got (codes "ECHO 1\nB") ∷ got (codes "YE\n") ∷ [];
  writes = replicate 5 flushed;
  delivered = [];
}

-- A handler that answers with a status and its arguments as data.
abbrev echo : Command → Program ℕ
echo command =
    Program.status (codes "STEP") (codes "1")
      (λ r. Program.payload command.args (λ r'. Program.done r'))

abbrev registry : Handlers ℕ
registry =
    (codes "ECHO", record { name = codes "ECHO"; description = codes "Echo"; function = echo }) ∷ []

abbrev always : ℕ → Bool
always d = true

abbrev session : Session ℕ
session = Session.new client [] 0 registry default_hooks default

session_ends : (drive always session).1 ≡ ok tt
unfolding drive greet serve serve_from await_from dispatch finalize final_line deadline default
    bytes_ahead run_program send_status send_line send_data data_loop get Session.new Channel.new
    Frame.new zeros Server.new Frame.clear Channel.clear feed feed_loop line drain receive_loop
    receive read_line_or_eof strip_suffix check_line write_line request_kind parse receive_request
    send_response kind encode_response write_optional write_keyword write_parts measure_parts
    copy_parts encode_data_chunk chunk_loop code_digits validate_line validate_token split_field
    from_utf8 Command.new
session_ends = refl

drive-IsReady_example : IsReady (drive always session).0.io
drive-IsReady_example = drive-IsReady always session session_ends

-- A loop out of rounds could fail, or not.
abbrev fails : Session ℕ → Session ℕ × Result ServerError (Unit {0})
fails s = (s, err ServerError.invalid_options)

abbrev ends : Session ℕ → Session ℕ × Result ServerError (Unit {0})
ends s = (s, ok tt)

session_bytes : bytes_ahead session.io.channel < 12
unfolding bytes_ahead Session.new Channel.new
session_bytes = omega arith

serve_from_enough_example : serve_from always fails 12 session ≡ serve_from always ends 12 session
serve_from_enough_example = serve_from_enough always fails ends 12 session session_bytes

abbrev asked : Inquiry
asked = record { limit = 8; received = 0; outcome = none }

next_from_enough_example :
    next_from (λ io. ((io, asked), ok none)) 12 asked session.io
    ≡ next_from (λ io. failed io asked HandlerError.internal) 12 asked session.io
next_from_enough_example =
    next_from_enough (λ io. ((io, asked), ok none)) (λ io. failed io asked HandlerError.internal) 12
      asked session.io session_bytes

-- A command that is handled, on a stream that takes what is written.
abbrev taking : Stream
taking = record { reads = []; writes = replicate 3 flushed; delivered = [] }

abbrev handling : Io
handling = record {
  channel = Channel.new taking;
  machine = record { state = handler; inquiry_origin = greeting };
  expiries = [];
}

taking-Takes : Takes handling.channel taking (replicate 2 flushed)
unfolding Channel.new
taking-Takes = record { stream = refl; size = refl; takes = refl }

remote_fits :
    (encode_response (Message.error 55 (codes "no")) (replicate max_line_bytes 0)).1 ≡ ok 10
unfolding encode_response write_parts measure_parts copy_parts code_digits decimal_loop
    validate_line
remote_fits = refl

finalize_delivers_example :
    (text : Bytes) × (finalize (err (remote 55 (codes "no"))) false handling ≡ (
      record (later handling) {
        channel = sent_on handling.channel taking (text ++ b'\n' ∷ []) (replicate 2 flushed);
        machine = (send_response handling.machine (kind (Message.error 55 (codes "no")))).0;
      },
      ok tt,
    ))
    × (parse_server_line text ≡ ok (Message.error 55 (codes "no")))
finalize_delivers_example =
    finalize_delivers (err (remote 55 (codes "no"))) false handling (Message.error 55 (codes "no"))
      (ok tt) taking (replicate 2 flushed) (failure 55 (codes "no") 10 (omega arith) remote_fits)
      (answered (err (remote 55 (codes "no")))) (inr (inl refl)) refl taking-Takes

taking-Flows : Flows handling taking 3
unfolding Channel.new
taking-Flows = record { on_time = refl; stream = refl; size = refl; takes = refl }

send_data-Sent_example : Sent taking (codes "a%") (send_data (codes "a%") handling)
send_data-Sent_example =
    send_data-Sent (codes "a%") handling taking 3 refl (omega arith) taking-Flows

-- Options.
validate-eq-ok_example :
    (validate 1000 always default ≡ ok tt → Valid.IsValid 1000 always default)
    × (Valid.IsValid 1000 always default → validate 1000 always default ≡ ok tt)
validate-eq-ok_example = validate-eq-ok 1000 always default

-- Registrations.
abbrev numbers : Registry ℕ
numbers = (codes "ONE", record { name = codes "ONE"; description = codes "one"; function = 1 }) ∷ []

abbrev two : Handler ℕ
two = record { name = codes "TWO"; description = codes "two"; function = 2 }

numbers-IsValid : Names.IsValid numbers
unfolding validate_token get Command.new validate_line
numbers-IsValid = (
  record {
    present = refl;
    not_comment = refl;
    printed = refl;
    short = omega arith;
    not_nop = refl;
    not_bye = refl;
    not_help = refl;
    not_reset = refl;
    not_option = refl;
  },
  refl,
  refl,
  tt,
)

register-IsValid_example : Names.IsValid (register numbers two).0
register-IsValid_example = register-IsValid numbers two numbers-IsValid

register-get_example :
    ((e : RegistryError) × (register numbers two ≡ (numbers, err e)))
    ⊎ (((register numbers two).1 ≡ ok tt)
        × (get numbers two.name ≡ none)
        × (get (register numbers two).0 (codes "ONE")
            ≡ (if bytes_eq two.name (codes "ONE") then some two else get numbers (codes "ONE"))))
register-get_example = register-get numbers two (codes "ONE")

-- A command that is handled, with a handler that answers.
abbrev busy_session : Session ℕ
busy_session = record session { io = handling }

dispatch-IsBusy_example :
    IsBusy (dispatch busy_session (record { name = codes "ECHO"; args = codes "1" })).0.machine
dispatch-IsBusy_example =
    dispatch-IsBusy busy_session (record { name = codes "ECHO"; args = codes "1" }) refl
