-- ===== src/Server/Request.antt =====
-- crates/assuan-server/src/inquiry.rs: the kind of a line from the client.
use assuan_library_rs.Prelude.{
  Bool, ◌||◌, Bytes, codes, bytes_eq, strip_prefix, is_none, not, is_empty, any, if◌then◌else◌,
  Result, ok, err, ◌>>=◌,
}
use assuan_library_rs.Protocol.Error.{ProtocolError, invalid_line}
use assuan_library_rs.Protocol.Command.{is_forbidden, parse}
use assuan_library_rs.Protocol.State.Kinds.{RequestKind}

-- `line.starts_with(prefix)`.
abbrev pub starts_with : Bytes → Bytes → Bool
starts_with line prefix = not (is_none (strip_prefix prefix line))

unfoldable pub request_kind : Bytes → Result ProtocolError RequestKind
request_kind line =
    if any is_forbidden line
    then err invalid_line
    else if is_empty line
    then ok RequestKind.empty
    else if starts_with line (codes "#")
    then ok RequestKind.comment
    else if starts_with line (codes "D ")
    then ok RequestKind.payload
    else if bytes_eq line (codes "END")
    then ok RequestKind.end
    else if bytes_eq line (codes "CAN")
    then ok RequestKind.can
    else (parse line >>= λ command.
        if bytes_eq command.name (codes "END")
          || bytes_eq command.name (codes "CAN")
          || bytes_eq command.name (codes "D")
        then err invalid_line
        else ok RequestKind.command)
