-- ===== src/Transport/Exchange.antt =====
-- A response from one end's channel to the other's: encoded, written, cut into reads, framed, parsed.
use assuan_library_rs.Prelude.{
  ℕ, ◌<◌, ◌≡◌, ap, ◌∙◌, false, some, List, [], ◌∷◌, ◌++◌, append_assoc, Bytes, length, take, arith,
  ok,
}
use assuan_library_rs.Protocol.Command.{Command, new, parse}
use assuan_library_rs.Protocol.Message.{ServerLine, parse_server_line}
use assuan_library_rs.Protocol.Encode.{max_line_bytes, Written, encode_response, encode_command}
use assuan_library_rs.Protocol.Encode.Write.{Wrote, sent}
use assuan_library_rs.Protocol.Encode.RoundTrip.{HasCode, parse_server_line-encode_response}
use assuan_library_rs.Protocol.Encode.Commands.{parse-encode_command}
use assuan_library_rs.Protocol.Wire.{take-Wrote, clean-not_feed, clean-strip_cr}
use assuan_library_rs.Transport.Stream.{Stream, Write, flushed}
use assuan_library_rs.Transport.Channel.{Channel, read_line_or_eof, write_line}
use assuan_library_rs.Transport.Channel.Reading.{IsOpen}
use assuan_library_rs.Transport.Channel.Lines.{Next, read_line_or_eof-line}
use assuan_library_rs.Transport.Channel.Writing.{sent_on, write_line-sent_on}

-- A channel that can write a line: it is open, and the stream will take the line.
pub record Takes (c : Channel) (s : Stream) (writes : List Write) : Type 0 where
  pub stream : c.stream ≡ some s
  pub size : length c.write ≡ max_line_bytes
  pub takes : s.writes ≡ flushed ∷ writes

-- The written line arrives as the text that was encoded.
pub record Arrives (c d : Channel) (s t : Stream) (writes : List Write) (bytes text rest : Bytes)
    : Type 0 where
  pub written : write_line false c bytes ≡ (sent_on c s bytes writes, ok tt)
  pub read : (read_line_or_eof false d).1 ≡ ok (some text)
  pub left : Next t rest (read_line_or_eof false d).0

line-Arrives :
    (c d : Channel) (s t : Stream) (writes : List Write) {output text : Bytes} {n : ℕ}
    {w : Written ℕ} (rest : Bytes)
    → Wrote output text n w
    → Takes c s writes
    → IsOpen d t (take n w.0 ++ rest)
    → Arrives c d s t writes (take n w.0) text rest
line-Arrives c d s t writes {output} {text} {n} {w} rest r can o =
    let bytes = take-Wrote r in
    let room : length text < max_line_bytes = omega (arith, r.size, r.fits) in
    let whole : take n w.0 ++ rest ≡ text ++ b'\n' ∷ rest =
      ap (λ z. z ++ rest) bytes ∙ append_assoc text (b'\n' ∷ []) rest in
    let (line, next) =
      read_line_or_eof-line d t text rest (rw whole at o) (clean-not_feed text r.clean) room in
    record {
      written =
          rw bytes (write_line-sent_on c s text writes can.stream can.size can.takes r.clean room);
      read = line ∙ ap (λ z. ok (some z)) (clean-strip_cr text r.clean);
      left = next;
    }

-- With storage of the limit's size and, for an error line, a code that is a `u32`: when a response is
-- encoded, a channel whose stream takes it writes its bytes whole; and a channel at the other end,
-- whose input begins with those bytes, reads one line, however they are cut into reads, has the input
-- behind them left, and the parser makes of that line the same response.
pub read_line_or_eof-encode_response :
    (response : ServerLine) (output rest : Bytes) (n : ℕ) (c d : Channel) (s t : Stream)
    (writes : List Write)
    → length output ≡ max_line_bytes
    → HasCode response
    → (encode_response response output).1 ≡ ok n
    → Takes c s writes
    → IsOpen d t (take n (encode_response response output).0 ++ rest)
    → (text : Bytes) × Arrives c d s t writes (take n (encode_response response output).0) text rest
      × (parse_server_line text ≡ ok response)
read_line_or_eof-encode_response response output rest n c d s t writes size code e can o =
    let (w, parsed) = parse_server_line-encode_response response output n size code e in
    (sent n (encode_response response output).0, line-Arrives c d s t writes rest w can o, parsed)

-- The same for a command: with storage of the limit's size, a validated command that is encoded and
-- written arrives as one line, however it is cut into reads, and is parsed as the same command.
pub read_line_or_eof-encode_command :
    (command : Command) (output rest : Bytes) (n : ℕ) (c d : Channel) (s t : Stream)
    (writes : List Write)
    → length output ≡ max_line_bytes
    → new command.name command.args ≡ ok command
    → (encode_command command output).1 ≡ ok n
    → Takes c s writes
    → IsOpen d t (take n (encode_command command output).0 ++ rest)
    → (text : Bytes) × Arrives c d s t writes (take n (encode_command command output).0) text rest
      × (parse text ≡ ok command)
read_line_or_eof-encode_command command output rest n c d s t writes size v e can o =
    let (w, parsed) = parse-encode_command command output n size v e in
    (sent n (encode_command command output).0, line-Arrives c d s t writes rest w can o, parsed)
