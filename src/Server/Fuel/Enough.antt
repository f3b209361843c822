-- ===== src/Server/Fuel/Enough.antt =====
-- The rounds of the loops of crates/assuan-server/src/session.rs and inquiry.rs.
use assuan_library_rs.Prelude.{
  ℕ, zero, suc, ◌<◌, ◌≡◌, refl, ap, Bool, true, false, arith, Option, none, some, Bytes, Result, ok,
  err,
}
use assuan_library_rs.Protocol.Error.{ProtocolError}
use assuan_library_rs.Protocol.Command
use assuan_library_rs.Protocol.State.Kinds.{RequestKind, StateError}
use assuan_library_rs.Protocol.State.Server.{ServerMachine, receive_request}
use assuan_library_rs.Transport.Channel.{Outcome, read_line, read_line_or_eof, some_line}
use assuan_library_rs.Server.Error.{ServerError}
use assuan_library_rs.Server.Request.{request_kind}
use assuan_library_rs.Server.Context.{Io, expired, later}
use assuan_library_rs.Server.Inquiry.{Inquiry, Nexted, bytes_ahead, next_from}
use assuan_library_rs.Server.Inquiry
use assuan_library_rs.Server.Options.{deadline}
use assuan_library_rs.Server.Session.{
  Session, Awaited, after_request, after_kind, after_read, await_from, await_loop, Served,
  with_deadline, after_await, serve, after_serve, serve_from,
}
use assuan_library_rs.Server.Stable.Rounds.{
  after_kind_stable, await_loop_stable, after_parse_stable,
}
use assuan_library_rs.Server.Fuel.{read_line_or_eof-Reads}
use assuan_library_rs.Server.Fuel.Rounds.{Within, Within-IsStable, Within-Finals}

after_request_same :
    (next next' : Io → Awaited) (io : Io) (line : Bytes) (event : RequestKind)
    (o : ServerMachine × Result StateError (Unit {0}))
    → ((io' : Io) → io'.channel ≡ io.channel → next io' ≡ next' io')
    → after_request next io line event o ≡ after_request next' io line event o
after_request_same next next' io line event (m, err e) k = refl
after_request_same next next' io line RequestKind.empty (m, ok u) k =
    k (record io { machine = m }) refl
after_request_same next next' io line RequestKind.comment (m, ok u) k =
    k (record io { machine = m }) refl
after_request_same next next' io line RequestKind.payload (m, ok u) k = refl
after_request_same next next' io line RequestKind.command (m, ok u) k = refl
after_request_same next next' io line RequestKind.end (m, ok u) k = refl
after_request_same next next' io line RequestKind.can (m, ok u) k = refl

after_kind_same :
    (next next' : Io → Awaited) (io : Io) (line : Bytes) (r : Result ProtocolError RequestKind)
    → ((io' : Io) → io'.channel ≡ io.channel → next io' ≡ next' io')
    → after_kind next io line r ≡ after_kind next' io line r
after_kind_same next next' io line (err e) k = refl
after_kind_same next next' io line (ok event) k =
    after_request_same next next' io line event (receive_request io.machine event) k

after_read_same :
    (next next' : Io → Awaited) (io : Io) (o : Outcome (Option Bytes))
    → ((io' : Io) (line : Bytes) → io'.channel ≡ o.0 → o.1 ≡ ok (some line) → next io' ≡ next' io')
    → after_read next io o ≡ after_read next' io o
after_read_same next next' io (c, err e) k = refl
after_read_same next next' io (c, ok none) k = refl
after_read_same next next' io (c, ok (some line)) k =
    after_kind_same next next' (record (later io) { channel = c }) line (request_kind line)
      (λ io' e. k io' line e refl)

-- With a round more than there are bytes ahead, the wait for a command never runs out of rounds: its
-- outcome is the same whatever a loop out of rounds would be.
pub await_from_enough :
    (stuck stuck' : Io → Awaited) (fuel : ℕ) (io : Io)
    → bytes_ahead io.channel < fuel
    → await_from stuck fuel io ≡ await_from stuck' fuel io
unfolding await_from
await_from_enough stuck stuck' zero io l = absurd (omega (arith, l))
await_from_enough stuck stuck' (suc fuel) io l =
    after_read_same (await_from stuck fuel) (await_from stuck' fuel) io
      (read_line_or_eof (expired io) io.channel)
      (λ io' line same e. await_from_enough stuck stuck' fuel io' (
        omega (
          arith,
          l,
          ap bytes_ahead same,
          (read_line_or_eof-Reads (expired io) io.channel).fewer e,
        )))

-- The same of an inquiry's wait for data.
module _ (next next' : Io → Nexted) where
  next_request_same :
      (io : Io) (q : Inquiry) (line : Bytes) (event : RequestKind)
      (o : ServerMachine × Result StateError (Unit {0}))
      → ((io' : Io) → io'.channel ≡ io.channel → next io' ≡ next' io')
      → Inquiry.after_request next io q line event o ≡ Inquiry.after_request next' io q line event o
  next_request_same io q line event (m, err e) k = refl
  next_request_same io q line RequestKind.payload (m, ok u) k = refl
  next_request_same io q line RequestKind.empty (m, ok u) k = k (record io { machine = m }) refl
  next_request_same io q line RequestKind.comment (m, ok u) k = k (record io { machine = m }) refl
  next_request_same io q line RequestKind.command (m, ok u) k = k (record io { machine = m }) refl
  next_request_same io q line RequestKind.end (m, ok u) k = k (record io { machine = m }) refl
  next_request_same io q line RequestKind.can (m, ok u) k = k (record io { machine = m }) refl

  next_kind_same :
      (io : Io) (q : Inquiry) (line : Bytes) (r : Result ProtocolError RequestKind)
      → ((io' : Io) → io'.channel ≡ io.channel → next io' ≡ next' io')
      → Inquiry.after_kind next io q line r ≡ Inquiry.after_kind next' io q line r
  next_kind_same io q line (err e) k = refl
  next_kind_same io q line (ok RequestKind.end) k = refl
  next_kind_same io q line (ok RequestKind.can) k = refl
  next_kind_same io q line (ok RequestKind.payload) k =
      next_request_same io q line RequestKind.payload
        (receive_request io.machine RequestKind.payload) k
  next_kind_same io q line (ok RequestKind.empty) k =
      next_request_same io q line RequestKind.empty (receive_request io.machine RequestKind.empty) k
  next_kind_same io q line (ok RequestKind.comment) k =
      next_request_same io q line RequestKind.comment
        (receive_request io.machine RequestKind.comment) k
  next_kind_same io q line (ok RequestKind.command) k =
      next_request_same io q line RequestKind.command
        (receive_request io.machine RequestKind.command) k

  next_read_same :
      (io : Io) (q : Inquiry) (o : Outcome (Option Bytes))
      → ((io' : Io) (line : Bytes)
          → io'.channel ≡ o.0
          → o.1 ≡ ok (some line)
          → next io' ≡ next' io')
      → Inquiry.after_read next io q (some_line o) ≡ Inquiry.after_read next' io q (some_line o)
  next_read_same io q (c, err e) k = refl
  next_read_same io q (c, ok none) k = refl
  next_read_same io q (c, ok (some line)) k =
      next_kind_same (record (later io) { channel = c }) q line (request_kind line)
        (λ io' e. k io' line e refl)

-- With a round more than there are bytes ahead, an inquiry's wait for data never runs out of rounds:
-- its outcome is the same whatever a loop out of rounds would be.
pub next_from_enough :
    (stuck stuck' : Io → Nexted) (fuel : ℕ) (q : Inquiry) (io : Io)
    → bytes_ahead io.channel < fuel
    → next_from stuck fuel q io ≡ next_from stuck' fuel q io
unfolding next_from read_line
next_from_enough stuck stuck' zero q io l = absurd (omega (arith, l))
next_from_enough stuck stuck' (suc fuel) q io l =
    next_read_same (next_from stuck fuel q) (next_from stuck' fuel q) io q
      (read_line_or_eof (expired io) io.channel)
      (λ io' line same e. next_from_enough stuck stuck' fuel q io' (
        omega (
          arith,
          l,
          ap bytes_ahead same,
          (read_line_or_eof-Reads (expired io) io.channel).fewer e,
        )))

-- A wait that returns a line has taken it off the input.
after_read_fewer :
    (fuel : ℕ) (io : Io) (o : Outcome (Option Bytes)) (n : ℕ) (bytes : Bytes)
    → ((line : Bytes) → o.1 ≡ ok (some line) → bytes_ahead o.0 < n)
    → (after_read (await_loop fuel) io o).1 ≡ ok (some bytes)
    → bytes_ahead (after_read (await_loop fuel) io o).0.channel < n
after_read_fewer fuel io (c, err e) n bytes k f = cc
after_read_fewer fuel io (c, ok none) n bytes k f = cc
after_read_fewer fuel io (c, ok (some line)) n bytes k f =
    let bound = bytes_ahead c in
    let kept =
      after_kind_stable (Within bound) (Within-IsStable bound) (Within-Finals bound)
        (await_loop fuel) (record (later io) { channel = c }) line (request_kind line)
        (await_loop_stable (Within bound) (Within-IsStable bound) (Within-Finals bound) fuel)
        (omega arith) in
    omega (arith, kept, k line refl)

await_loop_fewer :
    (fuel : ℕ) (io : Io) (bytes : Bytes)
    → (await_loop fuel io).1 ≡ ok (some bytes)
    → bytes_ahead (await_loop fuel io).0.channel < bytes_ahead io.channel
unfolding await_from
await_loop_fewer zero io bytes e = cc
await_loop_fewer (suc fuel) io bytes e =
    after_read_fewer fuel io (read_line_or_eof (expired io) io.channel) (bytes_ahead io.channel)
      bytes (λ line. (read_line_or_eof-Reads (expired io) io.channel).fewer) e

module _ {S : Type 0} (reaches : ℕ → Bool) where
  after_await_fewer :
      (s : Session S) (o : Awaited) (n : ℕ)
      → ((line : Bytes) → o.1 ≡ ok (some line) → bytes_ahead o.0.channel < n)
      → (after_await reaches s o).1 ≡ ok false
      → bytes_ahead (after_await reaches s o).0.io.channel < n
  after_await_fewer s (io, err e) n k f = cc
  after_await_fewer s (io, ok none) n k f = cc
  after_await_fewer s (io, ok (some line)) n k f =
      let bound = bytes_ahead io.channel in
      omega (
        arith,
        k line refl,
        after_parse_stable (Within bound) (Within-IsStable bound) (Within-Finals bound) reaches
            (record s { io = io }) (Command.parse line) (omega arith),
      )

  with_deadline_fewer :
      (d : Result ServerError (Unit {0})) (s : Session S) (next : Session S → Served S) (n : ℕ)
      → ((next s).1 ≡ ok false → bytes_ahead (next s).0.io.channel < n)
      → (with_deadline d s next).1 ≡ ok false
      → bytes_ahead (with_deadline d s next).0.io.channel < n
  with_deadline_fewer (ok u) s next n k e = k e
  with_deadline_fewer (err x) s next n k e = cc

  serve_fewer :
      (s : Session S)
      → (serve reaches s).1 ≡ ok false
      → bytes_ahead (serve reaches s).0.io.channel < bytes_ahead s.io.channel
  unfolding serve
  serve_fewer s e =
      let fuel = suc (bytes_ahead s.io.channel) in
      with_deadline_fewer (deadline reaches s.options.idle_timeout) s
        (λ s'. after_await reaches s' (await_loop (suc (bytes_ahead s'.io.channel)) s'.io))
        (bytes_ahead s.io.channel)
        (after_await_fewer s (await_loop fuel s.io) (bytes_ahead s.io.channel)
          (await_loop_fewer fuel s.io))
        e

  after_serve_same :
      (next next' : Session S → Session S × Result ServerError (Unit {0})) (o : Served S)
      → (o.1 ≡ ok false → next o.0 ≡ next' o.0)
      → after_serve reaches next o ≡ after_serve reaches next' o
  after_serve_same next next' (s, err e) k = refl
  after_serve_same next next' (s, ok true) k = refl
  after_serve_same next next' (s, ok false) k = k refl

  -- With a round more than there are bytes ahead, a session never runs out of rounds, whatever the
  -- handlers do: its outcome is the same whatever a loop out of rounds would be.
  pub serve_from_enough :
      (stuck stuck' : Session S → Session S × Result ServerError (Unit {0})) (fuel : ℕ)
      (s : Session S)
      → bytes_ahead s.io.channel < fuel
      → serve_from reaches stuck fuel s ≡ serve_from reaches stuck' fuel s
  unfolding serve_from
  serve_from_enough stuck stuck' zero s l = absurd (omega (arith, l))
  serve_from_enough stuck stuck' (suc fuel) s l =
      after_serve_same (serve_from reaches stuck fuel) (serve_from reaches stuck' fuel)
        (serve reaches s)
        (λ e.
          serve_from_enough stuck stuck' fuel (serve reaches s).0
            (omega (arith, l, serve_fewer s e)))
