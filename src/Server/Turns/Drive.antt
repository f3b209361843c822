-- ===== src/Server/Turns/Drive.antt =====
-- crates/assuan-server/src/session.rs: the state in which a session ends.
use assuan_library_rs.Prelude.{
  ℕ, zero, suc, ◌≡◌, refl, Bool, true, false, arith, Option, none, some, Bytes, codes, bytes_eq,
  Result, ok, err,
}
use assuan_library_rs.Protocol.Error.{ProtocolError}
use assuan_library_rs.Protocol.Command.{Command}
use assuan_library_rs.Protocol.Command
use assuan_library_rs.Protocol.State.Kinds.{RequestKind, StateError}
use assuan_library_rs.Protocol.State.Server.{ready, ServerMachine, receive_request}
use assuan_library_rs.Transport.Error.{TransportError}
use assuan_library_rs.Transport.Channel.{Channel, read_line_or_eof}
use assuan_library_rs.Server.Error.{ServerError}
use assuan_library_rs.Server.Request.{request_kind}
use assuan_library_rs.Server.Context.{Io, expired, later}
use assuan_library_rs.Server.Inquiry.{bytes_ahead}
use assuan_library_rs.Server.Final.{Ended, finalize}
use assuan_library_rs.Server.Program.{Ran, run_program}
use assuan_library_rs.Server.Options.{deadline}
use assuan_library_rs.Server.Session.{
  Session, Awaited, after_request, after_kind, after_read, await_loop, await_from, Served, dispatch,
  finalized, after_run, with_deadline, after_parse, after_await, serve, after_serve, serve_loop,
  serve_from, greet, after_greeting, drive,
}
use assuan_library_rs.Server.Stable.Rounds.{await_loop_stable, dispatch_stable}
use assuan_library_rs.Server.Turns.{
  IsPast, IsPast-IsStable, IsPast-Finals, MayEnd, finalize-IsReady,
}

abbrev pub IsReady : Io → Type 0
IsReady io = io.machine.state ≡ ready

IsReady-IsPast : (m : ServerMachine) → m.state ≡ ready → IsPast m
IsReady-IsPast m e = ground arith

-- Empty lines and comments are no turn.
abbrev is_skipped : RequestKind → Bool
is_skipped RequestKind.empty = true
is_skipped RequestKind.comment = true
is_skipped _ = false

skips-IsReady :
    (m : ServerMachine) (event : RequestKind)
    → m.state ≡ ready
    → is_skipped event ≡ true
    → (receive_request m event).0.state ≡ ready
unfolding receive_request
skips-IsReady m event e s = ground arith

after_request-IsReady :
    (next : Io → Awaited) (io : Io) (line : Bytes) (event : RequestKind)
    (o : ServerMachine × Result StateError (Unit {0}))
    → ((io' : Io) → IsReady io' → (next io').1 ≡ ok none → IsReady (next io').0)
    → (is_skipped event ≡ true → o.0.state ≡ ready)
    → (after_request next io line event o).1 ≡ ok none
    → IsReady (after_request next io line event o).0
after_request-IsReady next io line event (m, err x) k p e = cc
after_request-IsReady next io line RequestKind.comment (m, ok u) k p e =
    k (record io { machine = m }) (p refl) e
after_request-IsReady next io line RequestKind.empty (m, ok u) k p e =
    k (record io { machine = m }) (p refl) e
after_request-IsReady next io line RequestKind.command (m, ok u) k p e = cc
after_request-IsReady next io line RequestKind.payload (m, ok u) k p e = cc
after_request-IsReady next io line RequestKind.end (m, ok u) k p e = cc
after_request-IsReady next io line RequestKind.can (m, ok u) k p e = cc

after_kind-IsReady :
    (next : Io → Awaited) (io : Io) (line : Bytes) (r : Result ProtocolError RequestKind)
    → ((io' : Io) → IsReady io' → (next io').1 ≡ ok none → IsReady (next io').0)
    → IsReady io
    → (after_kind next io line r).1 ≡ ok none
    → IsReady (after_kind next io line r).0
after_kind-IsReady next io line (err x) k p e = p
after_kind-IsReady next io line (ok event) k p e =
    after_request-IsReady next io line event (receive_request io.machine event) k
      (skips-IsReady io.machine event p) e

after_read-IsReady :
    (next : Io → Awaited) (io : Io) (o : Channel × Result TransportError (Option Bytes))
    → ((io' : Io) → IsReady io' → (next io').1 ≡ ok none → IsReady (next io').0)
    → IsReady io
    → (after_read next io o).1 ≡ ok none
    → IsReady (after_read next io o).0
after_read-IsReady next io (c, err x) k p e = p
after_read-IsReady next io (c, ok none) k p e = p
after_read-IsReady next io (c, ok (some line)) k p e =
    after_kind-IsReady next (record (later io) { channel = c }) line (request_kind line) k p e

await_loop-IsReady :
    (fuel : ℕ) (io : Io)
    → IsReady io
    → (await_loop fuel io).1 ≡ ok none
    → IsReady (await_loop fuel io).0
unfolding await_from
await_loop-IsReady zero io p e = p
await_loop-IsReady (suc fuel) io p e =
    after_read-IsReady (await_loop fuel) io (read_line_or_eof (expired io) io.channel)
      (await_loop-IsReady fuel) p e

module _ {S : Type 0} where
  finalized-IsReady :
      {A : Type 0} (s : Session S) (a b : A) (o : Ended (Unit {0}))
      → (o.1 ≡ ok tt → IsReady o.0)
      → (finalized s a o).1 ≡ ok b
      → IsReady (finalized s a o).0.io
  finalized-IsReady s a b (io, ok u) k e = k refl
  finalized-IsReady s a b (io, err x) k e = cc

  after_run-IsReady :
      {A : Type 0} (s : Session S) (a b : A) (first : Bool) (o : Ran S)
      → MayEnd first o.0.machine
      → (after_run s a first o).1 ≡ ok b
      → IsReady (after_run s a first o).0.io
  after_run-IsReady s a b first (io, state, none) p e = cc
  after_run-IsReady s a b first (io, state, some r) p e =
      finalized-IsReady (record s { io = io; state = state }) a b (finalize r first io)
        (finalize-IsReady r first io p) e

  with_deadline-IsReady :
      {A : Type 0} (b : A) (d : Result ServerError (Unit {0})) (s : Session S)
      (next : Session S → Session S × Result ServerError A)
      → ((next s).1 ≡ ok b → IsReady (next s).0.io)
      → (with_deadline d s next).1 ≡ ok b
      → IsReady (with_deadline d s next).0.io
  with_deadline-IsReady b (ok u) s next k e = k e
  with_deadline-IsReady b (err x) s next k e = cc

  module _ (reaches : ℕ → Bool) where
    after_parse-IsReady :
        (s : Session S) (b : Bool) (r : Result ProtocolError Command)
        → IsPast s.io.machine
        → (after_parse reaches s r).1 ≡ ok b
        → IsReady (after_parse reaches s r).0.io
    after_parse-IsReady s b (err x) p e = cc
    after_parse-IsReady s b (ok command) p e =
        let bye = bytes_eq command.name (codes "BYE") in
        with_deadline-IsReady b (deadline reaches s.options.command_timeout) s
          (λ s'. after_run s' bye false (dispatch s' command))
          (after_run-IsReady s bye b false (dispatch s command)
            (dispatch_stable (λ io. IsPast io.machine) IsPast-IsStable s command p))
          e

    after_await-IsReady :
        (s : Session S) (b : Bool) (o : Awaited)
        → (o.1 ≡ ok none → IsReady o.0)
        → IsPast o.0.machine
        → (after_await reaches s o).1 ≡ ok b
        → IsReady (after_await reaches s o).0.io
    after_await-IsReady s b (io, err x) k p e = cc
    after_await-IsReady s b (io, ok none) k p e = k refl
    after_await-IsReady s b (io, ok (some line)) k p e =
        after_parse-IsReady (record s { io = io }) b (Command.parse line) p e

    -- A round that starts between two commands and does not fail ends between two commands, whatever
    -- the handlers do.
    pub serve-IsReady :
        (s : Session S) (b : Bool)
        → IsReady s.io
        → (serve reaches s).1 ≡ ok b
        → IsReady (serve reaches s).0.io
    unfolding serve
    serve-IsReady s b p e =
        let fuel = suc (bytes_ahead s.io.channel) in
        with_deadline-IsReady b (deadline reaches s.options.idle_timeout) s
          (λ s'. after_await reaches s' (await_loop (suc (bytes_ahead s'.io.channel)) s'.io))
          (after_await-IsReady s b (await_loop fuel s.io) (await_loop-IsReady fuel s.io p) (
            await_loop_stable (λ io. IsPast io.machine) IsPast-IsStable IsPast-Finals fuel s.io
              (IsReady-IsPast s.io.machine p)))
          e

    after_serve-IsReady :
        (next : Session S → Session S × Result ServerError (Unit {0})) (o : Served S)
        → ((b : Bool) → o.1 ≡ ok b → IsReady o.0.io)
        → ((s : Session S) → IsReady s.io → (next s).1 ≡ ok tt → IsReady (next s).0.io)
        → (after_serve reaches next o).1 ≡ ok tt
        → IsReady (after_serve reaches next o).0.io
    after_serve-IsReady next (s, err x) p k e = cc
    after_serve-IsReady next (s, ok true) p k e = p true refl
    after_serve-IsReady next (s, ok false) p k e = k s (p false refl) e

    serve_loop-IsReady :
        (fuel : ℕ) (s : Session S)
        → IsReady s.io
        → (serve_loop reaches fuel s).1 ≡ ok tt
        → IsReady (serve_loop reaches fuel s).0.io
    unfolding serve_from
    serve_loop-IsReady zero s p e = p
    serve_loop-IsReady (suc fuel) s p e =
        after_serve-IsReady (serve_loop reaches fuel) (serve reaches s) (λ b. serve-IsReady s b p)
          (serve_loop-IsReady fuel) e

    greet-IsReady : (s : Session S) → (greet reaches s).1 ≡ ok tt → IsReady (greet reaches s).0.io
    unfolding greet
    greet-IsReady s e =
        let max = s.options.max_inquiry_bytes in
        with_deadline-IsReady tt (deadline reaches s.options.greeting_timeout) s
          (λ s'.
            after_run s' tt true
              (run_program s'.options.max_inquiry_bytes s'.hooks.authenticate s'.io s'.state))
          (after_run-IsReady s tt tt true (run_program max s.hooks.authenticate s.io s.state) tt) e

    after_greeting-IsReady :
        (o : Session S × Result ServerError (Unit {0}))
        → (o.1 ≡ ok tt → IsReady o.0.io)
        → (after_greeting reaches o).1 ≡ ok tt
        → IsReady (after_greeting reaches o).0.io
    after_greeting-IsReady (s, err x) k e = cc
    after_greeting-IsReady (s, ok u) k e =
        serve_loop-IsReady (suc (bytes_ahead s.io.channel)) (record s { authenticated = true })
          (k refl) e

    -- A session that ends without an error ends between two commands: its machine is in the ready
    -- phase, so that no command is left being handled and no inquiry is left open, whatever the hooks
    -- and the handlers do with their contexts.
    pub drive-IsReady :
        (s : Session S) → (drive reaches s).1 ≡ ok tt → IsReady (drive reaches s).0.io
    unfolding drive
    drive-IsReady s e = after_greeting-IsReady (greet reaches s) (greet-IsReady s) e
