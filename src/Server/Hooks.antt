-- ===== src/Server/Hooks.antt =====
-- crates/assuan-server/src/hooks.rs: OPTION requests.
use assuan_library_rs.Prelude.{
  ℕ, Bool, ◌||◌, Option, none, some, [], ◌∷◌, Bytes, codes, any, is_empty, strip_prefix, unwrap_or,
  ◌==◌, if◌then◌else◌, Result, ok, err, ◌>>=◌, ok_or,
}
use assuan_library_rs.Protocol.Error.{ProtocolError, invalid_line, invalid_token}
use assuan_library_rs.Protocol.Utf8.{from_utf8}
use assuan_library_rs.Protocol.Command.{is_forbidden}
use assuan_library_rs.Protocol.Command

-- `is_ascii_whitespace`.
abbrev pub is_whitespace : ℕ → Bool
is_whitespace byte =
    (byte == b' ') || (byte == b'\t') || (byte == b'\n') || (byte == 12) || (byte == b'\r')

-- `trim_ascii`.
unfoldable pub trim_start : Bytes → Bytes
trim_start [] = []
trim_start (byte ∷ bytes) =
    let rest = trim_start bytes in if is_whitespace byte then rest else byte ∷ bytes

abbrev pub keep_front : ℕ → Bytes → Bytes
keep_front byte [] = if is_whitespace byte then [] else byte ∷ []
keep_front byte (b ∷ bytes) = byte ∷ b ∷ bytes

unfoldable pub trim_end : Bytes → Bytes
trim_end [] = []
trim_end (byte ∷ bytes) = keep_front byte (trim_end bytes)

unfoldable pub trim : Bytes → Bytes
unfolding trim_start trim_end
trim bytes = trim_end (trim_start bytes)

abbrev pub is_separator : ℕ → Bool
is_separator byte = (byte == b' ') || (byte == b'\t') || (byte == b'=')

-- The bytes before the first separator, and those from it on.
unfoldable pub split_name : Bytes → Bytes × Bytes
split_name [] = ([], [])
split_name (byte ∷ bytes) =
    let (name, rest) = split_name bytes in
    if is_separator byte then ([], byte ∷ bytes) else (byte ∷ name, rest)

pub record OptionRequest : Type 0 where
  pub name : Bytes
  pub value : Option Bytes

abbrev pub value_of_rest : Option Bytes → Bytes → Option Bytes
value_of_rest (some value) rest = some (trim value)
value_of_rest none rest = if is_empty rest then none else some rest

-- `OptionRequest::parse`.
unfoldable pub parse : Bytes → Result ProtocolError OptionRequest
unfolding trim split_name
parse bytes = if any is_forbidden bytes then err invalid_line else do
  let trimmed = trim bytes
  let fields = split_name (unwrap_or (strip_prefix (codes "--") trimmed) trimmed)
  text ← ok_or (from_utf8 fields.0) invalid_token
  _ ← Command.new text []
  let rest = trim fields.1
  ok (record { name = fields.0; value = value_of_rest (strip_prefix (codes "=") rest) rest })
