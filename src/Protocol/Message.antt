-- ===== src/Protocol/Message.antt =====
-- crates/assuan-protocol/src/message.rs: server lines and their parser.
use assuan_library_rs.Prelude.{
  ℕ, ◌-◌, Bool, not, ◌&&◌, ◌||◌, [], ◌∷◌, Bytes, codes, get_or, is_empty, leb, ◌==◌, if◌then◌else◌,
  is_digit, bytes_eq, strip_prefix, if_some, Result, ok, err, ◌>>=◌, ◌>>◌, ok_or, u32_max,
  checked_add, checked_mul, and_then,
}
use assuan_library_rs.Protocol.Error.{
  ProtocolError, invalid_token, invalid_response, invalid_error_code,
}
use assuan_library_rs.Protocol.Utf8.{from_utf8}
use assuan_library_rs.Protocol.Command.{validate_line, validate_token, split_field}

-- `ServerLine`; the constructor `okay` is the source's `Ok` and `error` its `Err`.
pub data ServerLine : Type 0 where
  okay : Bytes → ServerLine
  error : ℕ → Bytes → ServerLine
  payload : Bytes → ServerLine
  status : Bytes → Bytes → ServerLine
  inquire : Bytes → Bytes → ServerLine
  end : ServerLine
  comment : Bytes → ServerLine
  empty : ServerLine

abbrev pub is_ascii_alphabetic : ℕ → Bool
is_ascii_alphabetic c = (leb b'A' c && leb c b'Z') || (leb b'a' c && leb c b'z')

-- The first byte of a keyword is a letter or an underscore.
abbrev pub starts_keyword : Bytes → Bool
starts_keyword keyword = is_ascii_alphabetic (get_or keyword 0 0) || (get_or keyword 0 0 == b'_')

unfoldable pub parse_keyword : Bytes → Result ProtocolError (Bytes × Bytes)
parse_keyword fields = do
  let parts = split_field fields
  validate_token parts.0
  keyword ←
      if starts_keyword parts.0 then ok_or (from_utf8 parts.0) invalid_token else err invalid_token
  ok (keyword, parts.1)

-- The loop over the digits of an error code.
unfoldable pub parse_code : Bytes → ℕ → Result ProtocolError ℕ
parse_code [] code = ok code
parse_code (digit ∷ number) code = if not (is_digit digit) then err invalid_error_code else do
  code' ←
      ok_or
        (and_then (checked_mul u32_max code 10) (λ value. checked_add u32_max value (digit - b'0')))
        invalid_error_code
  parse_code number code'

unfoldable pub parse_error : Bytes → Result ProtocolError ServerLine
unfolding parse_code
parse_error fields =
    let parts = split_field fields in
    if is_empty parts.0
    then err invalid_error_code
    else (parse_code parts.0 0 >>= λ code. ok (error code parts.1))

abbrev pub keyword_line : (Bytes → Bytes → ServerLine) → Bytes → Result ProtocolError ServerLine
keyword_line make fields = parse_keyword fields >>= λ parts. ok (make parts.0 parts.1)

-- The tests of `parse_server_line`, in order, after the check of the line's bytes.
unfoldable pub classify : Bytes → Result ProtocolError ServerLine
unfolding parse_error parse_keyword
classify line =
    if is_empty line
    then ok empty
    else if_some (strip_prefix (codes "#") line) (λ text. ok (comment text))
        (if bytes_eq line (codes "OK")
          then ok (okay [])
          else if_some (strip_prefix (codes "OK ") line) (λ text. ok (okay text))
              (if_some (strip_prefix (codes "ERR ") line) parse_error (
                if_some (strip_prefix (codes "D ") line) (λ text. ok (payload text))
                  (if_some (strip_prefix (codes "S ") line) (keyword_line status) (
                    if_some (strip_prefix (codes "INQUIRE ") line) (keyword_line inquire)
                      (if bytes_eq line (codes "END") then ok end else err invalid_response))))))

unfoldable pub parse_server_line : Bytes → Result ProtocolError ServerLine
unfolding classify
parse_server_line line = do validate_line line; classify line
