-- ===== src/Server/Session.antt =====
-- crates/assuan-server/src/session.rs: one client, from its authentication to the end of the
-- connection. The peer that the acceptor reports, and whether the client is authenticated, are known
-- to the hook that is called.
use assuan_library_rs.Prelude.{
  ℕ, zero, suc, Bool, true, false, ◌||◌, Option, none, some, List, Bytes, codes, bytes_eq,
  if◌then◌else◌, Result, ok, err, ◌>>◌,
}
use assuan_library_rs.Protocol.Error.{ProtocolError}
use assuan_library_rs.Protocol.Command.{Command}
use assuan_library_rs.Protocol.Command
use assuan_library_rs.Protocol.State.Kinds.{RequestKind, StateError}
use assuan_library_rs.Protocol.State.Server.{
  ServerState, greeting, handler, await_final, ServerMachine, receive_request, send_response,
}
use assuan_library_rs.Protocol.State.Server
use assuan_library_rs.Transport.Error.{TransportError}
use assuan_library_rs.Transport.Stream.{Stream}
use assuan_library_rs.Transport.Channel.{Channel, read_line_or_eof, write_line}
use assuan_library_rs.Transport.Channel
use assuan_library_rs.Server.Error.{
  HandlerError, remote, ServerError, SessionEnd, unknown_command, invalid_value, end_reason,
}
use assuan_library_rs.Server.Registry.{Registry, Handler, get}
use assuan_library_rs.Server.Request.{request_kind}
use assuan_library_rs.Server.Hooks.{OptionRequest}
use assuan_library_rs.Server.Hooks
use assuan_library_rs.Server.Context.{Io, Done, expired, later}
use assuan_library_rs.Server.Inquiry.{bytes_ahead}
use assuan_library_rs.Server.Final.{Ended, finalize}
use assuan_library_rs.Server.Policies.{SessionHooks}
use assuan_library_rs.Server.Program.{Program, Ran, run_program}
use assuan_library_rs.Server.Builtins.{help}
use assuan_library_rs.Server.Options.{ServerOptions, deadline}
use assuan_library_rs.Server.Options

abbrev pub Handlers : Type 0 → Type 0
Handlers S = Registry (Command → Program S)

pub record Session (S : Type 0) : Type 0 where
  pub io : Io
  pub state : S
  pub registry : Handlers S
  pub hooks : SessionHooks S
  pub options : ServerOptions
  pub authenticated : Bool

-- A line that is neither empty nor a comment, or none at the end of the input.
abbrev pub Awaited : Type 0
Awaited = Ended (Option Bytes)

abbrev pub after_request :
    (Io → Awaited)
    → Io
    → Bytes
    → RequestKind
    → ServerMachine × Result StateError (Unit {0})
    → Awaited
after_request next io line event (m, err e) = (record io { machine = m }, err (ServerError.state e))
after_request next io line RequestKind.empty (m, ok u) = next (record io { machine = m })
after_request next io line RequestKind.comment (m, ok u) = next (record io { machine = m })
after_request next io line _ (m, ok u) = (record io { machine = m }, ok (some line))

abbrev pub after_kind : (Io → Awaited) → Io → Bytes → Result ProtocolError RequestKind → Awaited
after_kind next io line (err e) = (io, err (ServerError.protocol e))
after_kind next io line (ok event) =
    after_request next io line event (receive_request io.machine event)

abbrev pub after_read :
    (Io → Awaited) → Io → Channel × Result TransportError (Option Bytes) → Awaited
after_read next io (c, err e) = (record (later io) { channel = c }, err (ServerError.transport e))
after_read next io (c, ok none) = (record (later io) { channel = c }, ok none)
after_read next io (c, ok (some line)) =
    after_kind next (record (later io) { channel = c }) line (request_kind line)

-- The inner loop of `drive`: a round takes a line off the input, a byte at least. `stuck` is what a
-- loop is that has no round left, here and below.
unfoldable pub await_from : (Io → Awaited) → ℕ → Io → Awaited
await_from stuck zero io = stuck io
await_from stuck (suc fuel) io =
    after_read (await_from stuck fuel) io (read_line_or_eof (expired io) io.channel)

abbrev pub await_loop : ℕ → Io → Awaited
await_loop fuel io =
    await_from (λ io'. (io', err (ServerError.transport TransportError.timeout))) fuel io

abbrev pub reason : Result ServerError (Unit {0}) → SessionEnd
reason (ok u) = SessionEnd.clean
reason (err e) = end_reason e

abbrev pub closing_error : Option (Result HandlerError (Unit {0})) → Result ServerError (Unit {0})
closing_error none = err (ServerError.transport TransportError.timeout)
closing_error (some (ok u)) = ok tt
closing_error (some (err e)) = err (ServerError.handler e)

abbrev pub Served : Type 0 → Type 0
Served S = Session S × Result ServerError Bool

module _ {S : Type 0} where
  abbrev pub option_or_error : Session S → Result ProtocolError OptionRequest → Program S
  option_or_error s (ok request) = s.hooks.option request
  option_or_error s (err e) = Program.done (err (remote invalid_value (codes "invalid option")))

  abbrev pub handle : Session S → Command → Option (Handler (Command → Program S)) → Program S
  handle s command (some entry) = entry.function command
  handle s command none = Program.done (err (remote unknown_command (codes "unknown command")))

  abbrev pub application : Session S → Command → Program S
  application s command =
      if bytes_eq command.name (codes "OPTION")
      then option_or_error s (Hooks.parse command.args)
      else if bytes_eq command.name (codes "RESET")
      then s.hooks.reset
      else handle s command (get s.registry command.name)

  abbrev pub help_ran : S → Done (Unit {0}) → Ran S
  help_ran state (io, r) = (io, state, some r)

  -- What a command does before its final line.
  unfoldable pub dispatch : Session S → Command → Ran S
  dispatch s command =
      if bytes_eq command.name (codes "NOP") || bytes_eq command.name (codes "BYE")
      then (s.io, s.state, some (ok tt))
      else if bytes_eq command.name (codes "HELP")
      then help_ran s.state (help s.registry s.io)
      else run_program s.options.max_inquiry_bytes (application s command) s.io s.state

  abbrev pub finalized :
      {A : Type 0} → Session S → A → Ended (Unit {0}) → Session S × Result ServerError A
  finalized s a (io, ok u) = (record s { io = io }, ok a)
  finalized s a (io, err e) = (record s { io = io }, err e)

  -- The result of a program that ended in time is sent.
  abbrev pub after_run :
      {A : Type 0} → Session S → A → Bool → Ran S → Session S × Result ServerError A
  after_run s a first (io, state, none) =
      (record s { io = io; state = state }, err (ServerError.transport TransportError.timeout))
  after_run s a first (io, state, some r) =
      finalized (record s { io = io; state = state }) a (finalize r first io)

  abbrev pub with_deadline :
      {A : Type 0}
      → Result ServerError (Unit {0})
      → Session S
      → (Session S → Session S × Result ServerError A)
      → Session S × Result ServerError A
  with_deadline (err e) s next = (s, err e)
  with_deadline (ok u) s next = next s

  module _ (reaches : ℕ → Bool) where
    abbrev pub after_parse : Session S → Result ProtocolError Command → Served S
    after_parse s (err e) = (s, err (ServerError.protocol e))
    after_parse s (ok command) =
        with_deadline (deadline reaches s.options.command_timeout) s
          (λ s'. after_run s' (bytes_eq command.name (codes "BYE")) false (dispatch s' command))

    abbrev pub after_await : Session S → Awaited → Served S
    after_await s (io, err e) = (record s { io = io }, err e)
    after_await s (io, ok none) = (record s { io = io }, ok true)
    after_await s (io, ok (some line)) = after_parse (record s { io = io }) (Command.parse line)

    -- A round of `drive`: a command from its reading to its final line. The result says whether it was
    -- the last.
    unfoldable pub serve : Session S → Served S
    unfolding await_from dispatch finalize
    serve s =
        with_deadline (deadline reaches s.options.idle_timeout) s
          (λ s'. after_await s' (await_loop (suc (bytes_ahead s'.io.channel)) s'.io))

    abbrev pub after_serve :
        (Session S → Session S × Result ServerError (Unit {0}))
        → Served S
        → Session S × Result ServerError (Unit {0})
    after_serve next (s, err e) = (s, err e)
    after_serve next (s, ok true) = (s, ok tt)
    after_serve next (s, ok false) = next s

    -- The loop of `drive`: a command is a line, a byte at least.
    unfoldable pub serve_from :
        (Session S → Session S × Result ServerError (Unit {0}))
        → ℕ
        → Session S
        → Session S × Result ServerError (Unit {0})
    unfolding serve
    serve_from stuck zero s = stuck s
    serve_from stuck (suc fuel) s = after_serve (serve_from stuck fuel) (serve s)

    abbrev pub serve_loop : ℕ → Session S → Session S × Result ServerError (Unit {0})
    serve_loop fuel s =
        serve_from (λ s'. (s', err (ServerError.transport TransportError.timeout))) fuel s

    abbrev pub after_greeting :
        Session S × Result ServerError (Unit {0}) → Session S × Result ServerError (Unit {0})
    after_greeting (s, err e) = (s, err e)
    after_greeting (s, ok u) =
        serve_loop (suc (bytes_ahead s.io.channel)) (record s { authenticated = true })

    unfoldable pub greet : Session S → Session S × Result ServerError (Unit {0})
    unfolding finalize
    greet s = with_deadline (deadline reaches s.options.greeting_timeout) s (λ s'.
        after_run s' tt true
          (run_program s'.options.max_inquiry_bytes s'.hooks.authenticate s'.io s'.state))

    unfoldable pub drive : Session S → Session S × Result ServerError (Unit {0})
    unfolding serve_from greet
    drive s = after_greeting (greet s)

    abbrev pub shut : Session S → Session S
    shut s = record s {
      io = record s.io {
        channel = Channel.close s.io.channel;
        machine = Server.close s.io.machine;
      };
    }

    -- The close hook runs on the closed session; the session's own error is kept.
    abbrev pub after_drive :
        Session S × Result ServerError (Unit {0}) → Session S × Result ServerError (Unit {0})
    after_drive (s, r) = elim (deadline reaches s.options.shutdown_timeout) [
      | err e ↦ (shut s, err e)
      | ok u ↦ (shut s, r >> closing_error (s.hooks.closed s.state (reason r)))
    ]

    unfoldable pub run : ℕ → Session S → Session S × Result ServerError (Unit {0})
    unfolding drive
    run max_permits s = elim (Options.validate max_permits reaches s.options) [
      | err e ↦ (s, err e)
      | ok u ↦ after_drive (drive s)
    ]

-- `Session::new`; `expiries` are the answers of the clock.
unfoldable pub new :
    {S : Type 0} → Stream → List Bool → S → Handlers S → SessionHooks S → ServerOptions → Session S
new stream expiries state registry hooks options = record {
  io = record { channel = Channel.new stream; machine = Server.new; expiries = expiries };
  state = state;
  registry = registry;
  hooks = hooks;
  options = options;
  authenticated = false;
}
