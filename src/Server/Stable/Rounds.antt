-- ===== src/Server/Stable/Rounds.antt =====
-- A round of a session, for a property that the steps of the context keep.
use assuan_library_rs.Prelude.{
  ℕ, zero, suc, Bool, true, false, ◌||◌, Option, none, some, Bytes, codes, bytes_eq, if◌then◌else◌,
  Result, ok, err,
}
use assuan_library_rs.Protocol.Error.{ProtocolError}
use assuan_library_rs.Protocol.Command.{Command}
use assuan_library_rs.Protocol.Command
use assuan_library_rs.Protocol.State.Kinds.{RequestKind, StateError}
use assuan_library_rs.Protocol.State.Server.{ServerMachine, receive_request}
use assuan_library_rs.Transport.Error.{TransportError}
use assuan_library_rs.Transport.Channel.{Channel, read_line_or_eof}
use assuan_library_rs.Server.Error.{ServerError}
use assuan_library_rs.Server.Request.{request_kind}
use assuan_library_rs.Server.Context.{Io, expired, later}
use assuan_library_rs.Server.Inquiry.{bytes_ahead}
use assuan_library_rs.Server.Builtins.{help}
use assuan_library_rs.Server.Final.{Ended, finalize}
use assuan_library_rs.Server.Program.{Ran, run_program}
use assuan_library_rs.Server.Options.{deadline}
use assuan_library_rs.Server.Session.{
  Session, Awaited, after_request, after_kind, after_read, await_loop, await_from, application,
  help_ran, dispatch, finalized, after_run, with_deadline, after_parse, after_await, serve, greet,
}
use assuan_library_rs.Server.Stable.{IsStable}
use assuan_library_rs.Server.Stable.Programs.{run_program_stable}
use assuan_library_rs.Server.Stable.Serves.{Finals, help_stable, finalize_stable}

module _ (P : Io → Type 0) (stable : IsStable P) {S : Type 0} where
  if_ran_stable : (b : Bool) (x y : Ran S) → P x.0 → P y.0 → P (if b then x else y).0
  if_ran_stable true x y p q = p
  if_ran_stable false x y p q = q

  pub dispatch_stable : (s : Session S) (command : Command) → P s.io → P (dispatch s command).0
  unfolding dispatch
  dispatch_stable s command p =
      let program = run_program s.options.max_inquiry_bytes (application s command) s.io s.state in
      let helped = help_ran s.state (help s.registry s.io) in
      let is_help = bytes_eq command.name (codes "HELP") in
      if_ran_stable (bytes_eq command.name (codes "NOP") || bytes_eq command.name (codes "BYE"))
        (s.io, s.state, some (ok tt)) (if is_help then helped else program) p
        (if_ran_stable is_help helped program (help_stable P stable s.registry s.io p) (
          run_program_stable P stable s.options.max_inquiry_bytes (application s command) s.io
            s.state p))

module _ (P : Io → Type 0) (stable : IsStable P) (finals : Finals P) where
  after_request_stable :
      (next : Io → Awaited) (io : Io) (line : Bytes) (event : RequestKind)
      (o : ServerMachine × Result StateError (Unit {0}))
      → ((io' : Io) → P io' → P (next io').0)
      → P (record io { machine = o.0 })
      → P (after_request next io line event o).0
  after_request_stable next io line event (m, err e) k p = p
  after_request_stable next io line RequestKind.empty (m, ok u) k p =
      k (record io { machine = m }) p
  after_request_stable next io line RequestKind.comment (m, ok u) k p =
      k (record io { machine = m }) p
  after_request_stable next io line RequestKind.payload (m, ok u) k p = p
  after_request_stable next io line RequestKind.command (m, ok u) k p = p
  after_request_stable next io line RequestKind.end (m, ok u) k p = p
  after_request_stable next io line RequestKind.can (m, ok u) k p = p

  pub after_kind_stable :
      (next : Io → Awaited) (io : Io) (line : Bytes) (r : Result ProtocolError RequestKind)
      → ((io' : Io) → P io' → P (next io').0)
      → P io
      → P (after_kind next io line r).0
  after_kind_stable next io line (err e) k p = p
  after_kind_stable next io line (ok event) k p =
      after_request_stable next io line event (receive_request io.machine event) k
        (stable.requests io event p)

  after_read_stable :
      (next : Io → Awaited) (io : Io) (o : Channel × Result TransportError (Option Bytes))
      → ((io' : Io) → P io' → P (next io').0)
      → P (record (later io) { channel = o.0 })
      → P (after_read next io o).0
  after_read_stable next io (c, err e) k p = p
  after_read_stable next io (c, ok none) k p = p
  after_read_stable next io (c, ok (some line)) k p =
      after_kind_stable next (record (later io) { channel = c }) line (request_kind line) k p

  pub await_loop_stable : (fuel : ℕ) (io : Io) → P io → P (await_loop fuel io).0
  unfolding await_from
  await_loop_stable zero io p = p
  await_loop_stable (suc fuel) io p =
      after_read_stable (await_loop fuel) io (read_line_or_eof (expired io) io.channel)
        (await_loop_stable fuel) (stable.reads io p)

  module _ {S : Type 0} where
    finalized_stable :
        {A : Type 0} (s : Session S) (a : A) (o : Ended (Unit {0}))
        → P o.0
        → P (finalized s a o).0.io
    finalized_stable s a (io, ok u) p = p
    finalized_stable s a (io, err e) p = p

    after_run_stable :
        {A : Type 0} (s : Session S) (a : A) (first : Bool) (o : Ran S)
        → P o.0
        → P (after_run s a first o).0.io
    after_run_stable s a first (io, state, none) p = p
    after_run_stable s a first (io, state, some r) p =
        finalized_stable (record s { io = io; state = state }) a (finalize r first io)
          (finalize_stable P stable finals r first io p)

    with_deadline_stable :
        {A : Type 0} (d : Result ServerError (Unit {0})) (s : Session S)
        (next : Session S → Session S × Result ServerError A)
        → P s.io
        → P (next s).0.io
        → P (with_deadline d s next).0.io
    with_deadline_stable (err e) s next p q = p
    with_deadline_stable (ok u) s next p q = q

    module _ (reaches : ℕ → Bool) where
      pub after_parse_stable :
          (s : Session S) (r : Result ProtocolError Command)
          → P s.io
          → P (after_parse reaches s r).0.io
      after_parse_stable s (err e) p = p
      after_parse_stable s (ok command) p =
          let bye = bytes_eq command.name (codes "BYE") in
          with_deadline_stable (deadline reaches s.options.command_timeout) s
            (λ s'. after_run s' bye false (dispatch s' command)) p
            (after_run_stable s bye false (dispatch s command)
              (dispatch_stable P stable s command p))

      after_await_stable : (s : Session S) (o : Awaited) → P o.0 → P (after_await reaches s o).0.io
      after_await_stable s (io, err e) p = p
      after_await_stable s (io, ok none) p = p
      after_await_stable s (io, ok (some line)) p =
          after_parse_stable (record s { io = io }) (Command.parse line) p

      pub serve_stable : (s : Session S) → P s.io → P (serve reaches s).0.io
      unfolding serve
      serve_stable s p =
          let fuel = suc (bytes_ahead s.io.channel) in
          with_deadline_stable (deadline reaches s.options.idle_timeout) s
            (λ s'. after_await reaches s' (await_loop (suc (bytes_ahead s'.io.channel)) s'.io)) p
            (after_await_stable s (await_loop fuel s.io) (await_loop_stable fuel s.io p))

      pub greet_stable : (s : Session S) → P s.io → P (greet reaches s).0.io
      unfolding greet
      greet_stable s p =
          let max = s.options.max_inquiry_bytes in
          with_deadline_stable (deadline reaches s.options.greeting_timeout) s
            (λ s'.
              after_run s' tt true
                (run_program s'.options.max_inquiry_bytes s'.hooks.authenticate s'.io s'.state))
            p
            (after_run_stable s tt true (run_program max s.hooks.authenticate s.io s.state)
              (run_program_stable P stable max s.hooks.authenticate s.io s.state p))
