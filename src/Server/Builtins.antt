-- ===== src/Server/Builtins.antt =====
-- crates/assuan-server/src/builtins.rs: HELP.
use assuan_library_rs.Prelude.{
  ℕ, ◌+◌, ◌-◌, Bool, ◌&&◌, List, [], ◌∷◌, ◌++◌, Bytes, codes, length, is_empty, ltb, leb,
  if◌then◌else◌, Result, ok, err,
}
use assuan_library_rs.Protocol.Error.{ProtocolError}
use assuan_library_rs.Protocol.Command.{Command}
use assuan_library_rs.Protocol.Command
use assuan_library_rs.Protocol.Message
use assuan_library_rs.Protocol.Encode.{max_line_bytes}
use assuan_library_rs.Server.Error.{protocol}
use assuan_library_rs.Server.Registry.{Registry}
use assuan_library_rs.Server.Context.{Io, Done, send_line}

abbrev pub commands : List (Bytes × Bytes)
commands =
    (codes "NOP", codes "No operation")
    ∷ (codes "BYE", codes "Close this connection")
    ∷ (codes "HELP", codes "List commands")
    ∷ (codes "RESET", codes "Reset transient session state")
    ∷ (codes "OPTION", codes "Set a session option")
    ∷ []

abbrev is_continuation : ℕ → Bool
is_continuation byte = leb 0x80 byte && ltb byte 0xc0

abbrev join : ℕ → List Bytes → List Bytes
join byte [] = (byte ∷ []) ∷ []
join byte (char ∷ chars) = (byte ∷ char) ∷ chars

-- `part.chars()`, each with its UTF-8 bytes.
unfoldable pub chars : Bytes → List Bytes
chars [] = []
chars (byte ∷ []) = (byte ∷ []) ∷ []
chars (byte ∷ b ∷ bytes) =
    let rest = chars (b ∷ bytes) in if is_continuation b then join byte rest else (byte ∷ []) ∷ rest

unfoldable pub comment : Bytes → Io → Done (Unit {0})
unfolding send_line
comment text io = send_line (Message.comment (b' ' ∷ text)) io

abbrev pub on_success : Done (Unit {0}) → (Io → Done (Unit {0})) → Done (Unit {0})
on_success (io, ok u) next = next io
on_success (io, err e) next = (io, err e)

-- The loop over the characters, with the bytes that wait in the buffer.
unfoldable pub entry_loop : List Bytes → Bytes → Io → Done (Unit {0})
unfolding comment
entry_loop [] buffer io = if is_empty buffer then (io, ok tt) else comment buffer io
entry_loop (char ∷ chars) buffer io =
    if ltb (max_line_bytes - 3) (length buffer + length char)
    then on_success (comment buffer io) (entry_loop chars char)
    else entry_loop chars (buffer ++ char) io

abbrev pub checked_entry : Result ProtocolError Command → Bytes → Bytes → Io → Done (Unit {0})
checked_entry (err e) name description io = (io, err (protocol e))
checked_entry (ok command) name description io =
    entry_loop (chars name ++ chars (b' ' ∷ []) ++ chars description) [] io

unfoldable pub entry : Bytes → Bytes → Io → Done (Unit {0})
unfolding entry_loop chars
entry name description io = checked_entry (Command.new name description) name description io

unfoldable pub entries_loop : List (Bytes × Bytes) → Io → Done (Unit {0})
unfolding entry
entries_loop [] io = (io, ok tt)
entries_loop ((name, description) ∷ entries) io =
    on_success (entry name description io) (entries_loop entries)

abbrev pub listed {ℓ} : {F : Type ℓ} → Registry F → List (Bytes × Bytes)
listed [] = []
listed ((name, handler) ∷ entries) = (name, handler.description) ∷ listed entries

-- The built-in commands, and then the entries of the registry.
unfoldable pub help {ℓ} : {F : Type ℓ} → Registry F → Io → Done (Unit {0})
unfolding entries_loop
help registry io = on_success (entries_loop commands io) (entries_loop (listed registry))
