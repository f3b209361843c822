-- ===== src/Protocol/Escape.antt =====
-- crates/assuan-protocol/src/escape.rs: percent-decoding in place.
pub mod Unescape
mod Validate
pub mod InPlace
use assuan_library_rs.Prelude.{
  ℕ, zero, suc, ◌+◌, ◌-◌, ◌*◌, Bool, ◌&&◌, ◌||◌, Option, none, some, Bytes, length, get_or, set,
  ltb, leb, ◌==◌, if◌then◌else◌, Result, ok, err, ◌>>◌, is_none, unwrap_or,
}
use assuan_library_rs.Protocol.Error.{ProtocolError, invalid_escape}

-- The value of a hexadecimal digit of either case.
unfoldable pub hex : ℕ → Option ℕ
hex byte =
    if leb b'0' byte && leb byte b'9'
    then some (byte - b'0')
    else if leb b'a' byte && leb byte b'f'
    then some (byte - b'a' + 10)
    else if leb b'A' byte && leb byte b'F'
    then some (byte - b'A' + 10)
    else none

-- `bytes[i]`; the loops read within bounds only.
abbrev pub byte_at : Bytes → ℕ → ℕ
byte_at bytes i = get_or bytes i 0

-- The guard of the validation pass on a percent sign at `read`.
abbrev bad_escape : Bytes → ℕ → Bool
bad_escape bytes read =
    ltb (length bytes - read) 3
    || is_none (hex (byte_at bytes (read + 1)))
    || is_none (hex (byte_at bytes (read + 2)))

-- The validation pass; every round moves `read` on, so a unit of fuel for each byte is enough.
pub validate_pass : ℕ → Bytes → ℕ → Result ProtocolError (Unit {0})
validate_pass zero bytes read = ok tt
validate_pass (suc fuel) bytes read =
    let next =
      validate_pass fuel bytes (if byte_at bytes read == b'%' then read + 3 else read + 1) in
    if ltb read (length bytes)
    then (if (byte_at bytes read == b'%') && bad_escape bytes read
        then err invalid_escape
        else next)
    else ok tt

-- The decoding pass over the buffer, with the count of bytes written.
pub decode_pass : ℕ → Bytes → ℕ → ℕ → Bytes × ℕ
decode_pass zero bytes read written = (bytes, written)
decode_pass (suc fuel) bytes read written =
    let high = unwrap_or (hex (byte_at bytes (read + 1))) 0 in
    let low = unwrap_or (hex (byte_at bytes (read + 2))) 0 in
    let escaped = decode_pass fuel (set bytes written (high * 16 + low)) (read + 3) (written + 1) in
    let plain =
      decode_pass fuel (set bytes written (byte_at bytes read)) (read + 1) (written + 1) in
    if ltb read (length bytes)
    then (if byte_at bytes read == b'%' then escaped else plain)
    else (bytes, written)

-- The buffer after the call beside the returned count.
unfoldable pub decode_data_in_place : Bytes → Result ProtocolError (Bytes × ℕ)
unfolding validate_pass decode_pass hex
decode_data_in_place bytes = do
  validate_pass (length bytes) bytes 0
  ok (decode_pass (length bytes) bytes 0 0)
