-- ===== src/Protocol/Encode.antt =====
-- crates/assuan-protocol/src/encode.rs: lines written into caller-owned storage of fixed size.
-- An encoder returns the storage after the call beside its result.
pub mod Write
mod Lines
pub mod RoundTrip
pub mod Commands
pub mod Chunk
pub mod Data
pub mod Accepts
use assuan_library_rs.Prelude.{
  ℕ, zero, suc, ◌+◌, ◌-◌, Bool, true, false, ◌&&◌, ◌||◌, not, Option, none, some, List, [], ◌∷◌,
  ◌++◌, Bytes, codes, length, set, get_or, is_empty, is_none, ltb, leb, ◌==◌, if◌then◌else◌, Result,
  ok, err, ◌>>=◌, ◌>>◌, ok_or, usize_max, checked_add, decimal_loop, is_digit,
}
use assuan_library_rs.Protocol.Error.{ProtocolError, invalid_token, invalid_escape, line_too_long}
use assuan_library_rs.Protocol.Command.{Command, validate_line, validate_token}
use assuan_library_rs.Protocol.Message.{
  ServerLine, okay, error, payload, status, inquire, end, comment, empty, starts_keyword,
}

-- `MAX_LINE_BYTES` of crates/assuan-protocol/src/frame.rs.
abbrev pub max_line_bytes : ℕ
max_line_bytes = 1000

abbrev pub Written {ℓ} : Type ℓ → Type ℓ
Written A = Bytes × Result ProtocolError A

-- `check?;` in front of code that writes: a failed check leaves the storage as it is.
abbrev pub checked {ℓ κ} :
    {A : Type ℓ} {B : Type κ} → Result ProtocolError A → Bytes → (A → Written B) → Written B
checked (ok a) output next = next a
checked (err e) output next = (output, err e)

-- `output[position..position + part.len()].copy_from_slice(part)`.
abbrev pub copy_at : Bytes → ℕ → Bytes → Bytes
copy_at output position [] = output
copy_at output position (byte ∷ part) = copy_at (set output position byte) (suc position) part

-- The first loop of `write_parts`.
unfoldable pub measure_parts : List Bytes → ℕ → Result ProtocolError ℕ
measure_parts [] total = ok total
measure_parts (part ∷ parts) total = do
  validate_line part
  total' ← ok_or (checked_add usize_max total (length part)) line_too_long
  if ltb max_line_bytes total' then err line_too_long else measure_parts parts total'

-- The second loop of `write_parts`.
unfoldable pub copy_parts : List Bytes → Bytes → ℕ → Bytes × ℕ
copy_parts [] output position = (output, position)
copy_parts (part ∷ parts) output position =
    copy_parts parts (copy_at output position part) (position + length part)

unfoldable pub write_parts : List Bytes → Bytes → Written ℕ
unfolding measure_parts copy_parts
write_parts parts output = checked (measure_parts parts 1) output λ total.
    let (copied, position) = copy_parts parts output 0 in (set copied position b'\n', ok total)

unfoldable pub encode_command : Command → Bytes → Written ℕ
unfolding write_parts
encode_command command output =
    if is_empty command.args
    then write_parts (command.name ∷ []) output
    else write_parts (command.name ∷ codes " " ∷ command.args ∷ []) output

unfoldable pub write_optional : Bytes → Bytes → Bytes → Written ℕ
unfolding write_parts
write_optional head text output =
    if is_empty text
    then write_parts (head ∷ []) output
    else write_parts (head ∷ codes " " ∷ text ∷ []) output

unfoldable pub write_keyword : Bytes → Bytes → Bytes → Bytes → Written ℕ
unfolding write_parts
write_keyword head keyword args output = checked (validate_token keyword) output λ _.
    if starts_keyword keyword
    then (if is_empty args
        then write_parts (head ∷ keyword ∷ []) output
        else write_parts (head ∷ keyword ∷ codes " " ∷ args ∷ []) output)
    else (output, err invalid_token)

-- The decimal digits of an error code, in an array of ten places.
unfoldable pub code_digits : ℕ → Bytes
code_digits code = decimal_loop 10 code []

abbrev pub is_ascii_hexdigit : ℕ → Bool
is_ascii_hexdigit c = is_digit c || (leb b'a' c && leb c b'f') || (leb b'A' c && leb c b'F')

-- Every percent sign is followed by two hexadecimal digits; the text is what is left at `position`.
unfoldable pub validate_encoded_data : Bytes → Result ProtocolError (Unit {0})
validate_encoded_data [] = ok tt
validate_encoded_data (c ∷ []) = if c == b'%' then err invalid_escape else ok tt
validate_encoded_data (c ∷ h ∷ []) =
    let next = validate_encoded_data (h ∷ []) in if c == b'%' then err invalid_escape else next
validate_encoded_data (c ∷ h ∷ l ∷ r) =
    let escaped = validate_encoded_data r in
    let next = validate_encoded_data (h ∷ l ∷ r) in
    if c == b'%'
    then (if not (is_ascii_hexdigit h) || not (is_ascii_hexdigit l)
        then err invalid_escape
        else escaped)
    else next

unfoldable pub encode_response : ServerLine → Bytes → Written ℕ
unfolding write_parts write_optional write_keyword code_digits validate_encoded_data
encode_response (okay text) output = write_optional (codes "OK") text output
encode_response (error code text) output =
    if is_empty text
    then write_parts (codes "ERR " ∷ code_digits code ∷ []) output
    else write_parts (codes "ERR " ∷ code_digits code ∷ codes " " ∷ text ∷ []) output
encode_response (payload text) output =
    checked (validate_encoded_data text) output λ _. write_parts (codes "D " ∷ text ∷ []) output
encode_response (status keyword args) output = write_keyword (codes "S ") keyword args output
encode_response (inquire keyword args) output = write_keyword (codes "INQUIRE ") keyword args output
encode_response end output = write_parts (codes "END" ∷ []) output
encode_response (comment text) output = write_parts (codes "#" ∷ text ∷ []) output
encode_response empty output = write_parts [] output

-- The escape of a byte that cannot stand in a line.
abbrev pub escape_of : ℕ → Option Bytes
escape_of byte =
    if byte == b'%'
    then some (codes "%25")
    else if byte == b'\r'
    then some (codes "%0D")
    else if byte == b'\n'
    then some (codes "%0A")
    else if byte == 0
    then some (codes "%00")
    else none

abbrev pub cost_of : Option Bytes → ℕ
cost_of escaped = if is_none escaped then 1 else 3

abbrev pub put : Bytes → ℕ → ℕ → Option Bytes → Bytes
put output written byte none = set output written byte
put output written byte (some escape) = copy_at output written escape

-- The loop over the input: the storage, the bytes written and the bytes consumed.
unfoldable pub chunk_loop : Bytes → Bytes → ℕ → ℕ → Bytes × ℕ × ℕ
chunk_loop [] output written consumed = (output, written, consumed)
chunk_loop (byte ∷ input) output written consumed =
    let escaped = escape_of byte in
    let cost = cost_of escaped in
    let next = chunk_loop input (put output written byte escaped) (written + cost) (consumed + 1) in
    if ltb (written + cost) max_line_bytes then next else (output, written, consumed)

-- The result is `(input_consumed, output_written)`.
unfoldable pub encode_data_chunk : Bytes → Bytes → Written (ℕ × ℕ)
unfolding chunk_loop
encode_data_chunk input output =
    let (filled, written, consumed) = chunk_loop input (copy_at output 0 (codes "D ")) 2 0 in
    (set filled written b'\n', ok (consumed, written + 1))
