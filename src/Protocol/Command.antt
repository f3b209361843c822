-- ===== src/Protocol/Command.antt =====
-- crates/assuan-protocol/src/command.rs: validated commands, and the checks on lines and tokens.
pub mod Fields
use assuan_library_rs.Prelude.{
  ℕ, ◌+◌, ◌-◌, Bool, true, false, not, ◌&&◌, ◌||◌, Option, none, some, [], ◌∷◌, Bytes, get_or,
  is_empty, any, all, leb, ltb, ◌==◌, if◌then◌else◌, Result, ok, err, ◌>>=◌, ◌>>◌, ok_or,
}
use assuan_library_rs.Protocol.Error.{ProtocolError, invalid_line, invalid_token}
use assuan_library_rs.Protocol.Utf8.{from_utf8}

-- `matches!(byte, 0 | b'\r' | b'\n')`.
abbrev pub is_forbidden : ℕ → Bool
is_forbidden byte = (byte == 0) || (byte == b'\r') || (byte == b'\n')

unfoldable pub validate_line : Bytes → Result ProtocolError (Unit {0})
validate_line line = if any is_forbidden line then err invalid_line else ok tt

-- `is_ascii_graphic`: the bytes from `!` to `~`.
abbrev pub is_ascii_graphic : ℕ → Bool
is_ascii_graphic byte = leb 0x21 byte && leb byte 0x7e

abbrev pub is_token_byte : ℕ → Bool
is_token_byte byte = is_ascii_graphic byte && not (byte == b'%')

unfoldable pub validate_token : Bytes → Result ProtocolError (Unit {0})
validate_token token =
    if is_empty token || (get_or token 0 0 == b'#') || not (all is_token_byte token)
    then err invalid_token
    else ok tt

-- The text before the first space and the text behind it.
unfoldable pub split_field : Bytes → Bytes × Bytes
split_field [] = ([], [])
split_field (byte ∷ bytes) =
    let (name, args) = split_field bytes in
    if byte == b' ' then ([], bytes) else (byte ∷ name, args)

pub record Command : Type 0 where
  pub name : Bytes
  pub args : Bytes

unfoldable pub new : Bytes → Bytes → Result ProtocolError Command
new name args = do validate_token name; validate_line args; ok (record { name = name; args = args })

unfoldable pub parse : Bytes → Result ProtocolError Command
parse line = do
  validate_line line
  let fields = split_field line
  validate_token fields.0
  name ← ok_or (from_utf8 fields.0) invalid_token
  ok (record { name = name; args = fields.1 })
