-- ===== src/Server/Stable/Serves.antt =====
-- The built-in commands, the final lines and the rounds of a session, for a property that the
-- steps of the context keep.
use assuan_library_rs.Prelude.{
  refl, ℕ, Bool, Option, none, some, List, [], ◌∷◌, ◌++◌, Bytes, length, take, replicate, is_empty,
  ltb, ◌-◌, ◌+◌, Result, ok, err,
}
use assuan_library_rs.Protocol.Error.{ProtocolError}
use assuan_library_rs.Protocol.Command.{Command}
use assuan_library_rs.Protocol.Command
use assuan_library_rs.Protocol.Message.{ServerLine}
use assuan_library_rs.Protocol.Message
use assuan_library_rs.Protocol.Encode.{max_line_bytes, encode_response}
use assuan_library_rs.Protocol.State.Kinds.{LineKind, StateError, kind}
use assuan_library_rs.Protocol.State.Server.{ServerMachine, send_response}
use assuan_library_rs.Transport.Error.{TransportError}
use assuan_library_rs.Transport.Channel.{Channel, write_line}
use assuan_library_rs.Server.Error.{HandlerError, ServerError}
use assuan_library_rs.Server.Registry.{Registry}
use assuan_library_rs.Server.Context.{Io, Done, expired, later}
use assuan_library_rs.Server.Builtins.{
  commands, comment, on_success, entry_loop, checked_entry, entry, chars, entries_loop, listed,
  help,
}
use assuan_library_rs.Server.Final.{
  final_line, fatal, may_finish, after_write, after_response, after_encode, finalize_with,
  finalize_unless, finalize,
}
use assuan_library_rs.Server.Stable.{IsStable, if_stable, send_line_stable}

-- What sending any line keeps, a final one too.
abbrev pub Finals : (Io → Type 0) → Type 0
Finals P =
    (io : Io) (event : LineKind)
    → P io
    → P (record io { machine = (send_response io.machine event).0 })

module _ (P : Io → Type 0) (stable : IsStable P) where
  comment_stable : (text : Bytes) (io : Io) → P io → P (comment text io).0
  unfolding comment kind
  comment_stable text io p = send_line_stable P stable (Message.comment (b' ' ∷ text)) io refl p

  on_success_stable :
      (o : Done (Unit {0})) (next : Io → Done (Unit {0}))
      → P o.0
      → ((io : Io) → P io → P (next io).0)
      → P (on_success o next).0
  on_success_stable (io, ok u) next p k = k io p
  on_success_stable (io, err e) next p k = p

  entry_loop_stable :
      (letters : List Bytes) (buffer : Bytes) (io : Io) → P io → P (entry_loop letters buffer io).0
  unfolding entry_loop
  entry_loop_stable [] buffer io p =
      if_stable P stable (is_empty buffer) (io, ok tt) (comment buffer io) p
        (comment_stable buffer io p)
  entry_loop_stable (char ∷ letters) buffer io p =
      if_stable P stable (ltb (max_line_bytes - 3) (length buffer + length char))
        (on_success (comment buffer io) (entry_loop letters char))
        (entry_loop letters (buffer ++ char) io)
        (on_success_stable (comment buffer io) (entry_loop letters char)
          (comment_stable buffer io p) (entry_loop_stable letters char))
        (entry_loop_stable letters (buffer ++ char) io p)

  checked_entry_stable :
      (r : Result ProtocolError Command) (name description : Bytes) (io : Io)
      → P io
      → P (checked_entry r name description io).0
  checked_entry_stable (err e) name description io p = p
  checked_entry_stable (ok command) name description io p =
      entry_loop_stable (chars name ++ chars (b' ' ∷ []) ++ chars description) [] io p

  entries_loop_stable :
      (entries : List (Bytes × Bytes)) (io : Io) → P io → P (entries_loop entries io).0
  unfolding entries_loop entry
  entries_loop_stable [] io p = p
  entries_loop_stable ((name, description) ∷ entries) io p =
      on_success_stable (entry name description io) (entries_loop entries)
        (checked_entry_stable (Command.new name description) name description io p)
        (entries_loop_stable entries)

  pub help_stable : {F : Type 0} (registry : Registry F) (io : Io) → P io → P (help registry io).0
  unfolding help
  help_stable registry io p =
      on_success_stable (entries_loop commands io) (entries_loop (listed registry))
        (entries_loop_stable commands io p) (entries_loop_stable (listed registry))

module _ (P : Io → Type 0) (stable : IsStable P) (finals : Finals P) where
  -- The final line.
  after_write_stable :
      (first : Bool) (r : Result HandlerError (Unit {0})) (io : Io)
      (o : Channel × Result TransportError (Unit {0}))
      → P (record (later io) { channel = o.0 })
      → P (after_write first r io o).0
  after_write_stable first r io (c, ok u) p = p
  after_write_stable first r io (c, err e) p = p

  after_response_stable :
      (first : Bool) (r : Result HandlerError (Unit {0})) (io : Io) (output : Bytes)
      (o : ServerMachine × Result StateError (Unit {0}))
      → P (record io { machine = o.0 })
      → P (after_response first r io output o).0
  after_response_stable first r io output (m, err e) p = p
  after_response_stable first r io output (m, ok u) p =
      after_write_stable first r (record io { machine = m })
        (write_line (expired io) io.channel output)
        (stable.writes (record io { machine = m }) output p)

  after_encode_stable :
      (first : Bool) (r : Result HandlerError (Unit {0})) (io : Io) (event : LineKind)
      (o : Bytes × Result ProtocolError ℕ)
      → P io
      → P (after_encode first r io event o).0
  after_encode_stable first r io event (output, err e) p = p
  after_encode_stable first r io event (output, ok n) p =
      after_response_stable first r io (take n output) (send_response io.machine event)
        (finals io event p)

  finalize_with_stable :
      (first : Bool) (r : Result HandlerError (Unit {0})) (io : Io)
      (line : Result ServerError ServerLine)
      → P io
      → P (finalize_with first r io line).0
  finalize_with_stable first r io (err e) p = p
  finalize_with_stable first r io (ok line) p =
      after_encode_stable first r io (kind line) (encode_response line (replicate max_line_bytes 0))
        p

  finalize_unless_stable :
      (o : Option HandlerError) (r : Result HandlerError (Unit {0})) (first : Bool) (io : Io)
      → P io
      → P (finalize_unless o r first io).0
  finalize_unless_stable (some e) r first io p = p
  finalize_unless_stable none r first io p =
      if_stable P stable (may_finish io.machine.state) (finalize_with first r io (final_line r))
        (io, err (ServerError.state StateError.unusable))
        (finalize_with_stable first r io (final_line r) p) p

  pub finalize_stable :
      (r : Result HandlerError (Unit {0})) (first : Bool) (io : Io)
      → P io
      → P (finalize r first io).0
  unfolding finalize
  finalize_stable r first io p = finalize_unless_stable (fatal r) r first io p
