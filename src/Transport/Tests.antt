-- ===== src/Transport/Tests.antt =====
-- Channels over concrete streams.
use assuan_library_rs.Prelude.{
  ◌≡◌, refl, true, false, [], ◌∷◌, ◌++◌, Bytes, codes, map, replicate, take, ok, err, arith,
}
use assuan_library_rs.Protocol.Command.{validate_line}
use assuan_library_rs.Protocol.Error.{unexpected_eof}
use assuan_library_rs.Protocol.Message.{okay, parse_server_line}
use assuan_library_rs.Protocol.Encode.{
  max_line_bytes, encode_response, write_optional, write_parts, measure_parts, copy_parts,
}
use assuan_library_rs.Protocol.Frame.Complete.{strip_cr}
use assuan_library_rs.Transport.Error.{timeout, protocol}
use assuan_library_rs.Transport.Stream.{Stream, got, flushed, arrives}
use assuan_library_rs.Transport.Channel
use assuan_library_rs.Transport.Channel.{Channel, read_line_or_eof, clear}
use assuan_library_rs.Transport.Channel.Reading.{IsOpen}
use assuan_library_rs.Transport.Channel.Fresh.{new-IsOpen}
use assuan_library_rs.Transport.Channel.Lines.{Next, read_lines, read_lines-lines}
use assuan_library_rs.Transport.Channel.Ending.{read_line_or_eof-eof}
use assuan_library_rs.Transport.Channel.Writing.{IsWiped, reading, perform, perform-IsWiped}
use assuan_library_rs.Transport.Exchange.{Takes, Arrives, read_line_or_eof-encode_response}

abbrev sender : Stream
sender = record { reads = []; writes = flushed ∷ []; delivered = [] }

-- A response, cut in two, and a part of the next line.
abbrev receiver : Stream
receiver = record {
  reads = got (codes "OK h") ∷ got (codes "i\nD ") ∷ [];
  writes = [];
  delivered = [];
}

abbrev storage : Bytes
storage = replicate max_line_bytes 0

abbrev sent_bytes : Bytes
sent_bytes = take 6 (encode_response (okay (codes "hi")) storage).0

receiver-IsOpen : IsOpen (Channel.new receiver) receiver (sent_bytes ++ codes "D ")
unfolding arrives encode_response write_optional write_parts measure_parts copy_parts validate_line
receiver-IsOpen = new-IsOpen receiver (omega arith)

fits_six : (encode_response (okay (codes "hi")) storage).1 ≡ ok 6
unfolding encode_response write_optional write_parts measure_parts copy_parts validate_line
fits_six = refl

sender-Takes : Takes (Channel.new sender) sender []
unfolding Channel.new
sender-Takes = record { stream = refl; size = refl; takes = refl }

read_line_or_eof-encode_response_example :
    (text : Bytes) × Arrives
      (Channel.new sender)
      (Channel.new receiver)
      sender
      receiver
      []
      sent_bytes
      text
      (codes "D ")
    × (parse_server_line text ≡ ok (okay (codes "hi")))
read_line_or_eof-encode_response_example =
    read_line_or_eof-encode_response (okay (codes "hi")) storage (codes "D ") 6 (Channel.new sender)
      (Channel.new receiver) sender receiver [] refl tt fits_six sender-Takes receiver-IsOpen

abbrev two_lines : Stream
two_lines = record {
  reads = got (codes "ab\r\nc") ∷ got (codes "\nrest") ∷ [];
  writes = [];
  delivered = [];
}

two_lines-IsOpen : IsOpen (Channel.new two_lines) two_lines (codes "ab\r\nc\nrest")
unfolding arrives
two_lines-IsOpen = new-IsOpen two_lines (omega arith)

read_lines-lines_example :
    ((read_lines 2 (Channel.new two_lines)).1 ≡ ok (map strip_cr (codes "ab\r" ∷ codes "c" ∷ [])))
    × Next two_lines (codes "rest") (read_lines 2 (Channel.new two_lines)).0
read_lines-lines_example =
    read_lines-lines (codes "ab\r" ∷ codes "c" ∷ []) (Channel.new two_lines) two_lines
      (codes "rest") two_lines-IsOpen (refl, omega arith, (refl, omega arith, tt))

-- The input ends within a line.
abbrev cut_off : Stream
cut_off = record {
  reads = got (codes "a") ∷ got (codes "b") ∷ got [] ∷ [];
  writes = [];
  delivered = [];
}

cut_off-IsOpen : IsOpen (Channel.new cut_off) cut_off (codes "ab")
unfolding arrives
cut_off-IsOpen = new-IsOpen cut_off (omega arith)

read_line_or_eof-eof_example :
    (read_line_or_eof false (Channel.new cut_off)).1 ≡ err (protocol unexpected_eof)
read_line_or_eof-eof_example =
    read_line_or_eof-eof (Channel.new cut_off) cut_off (codes "ab") cut_off-IsOpen tt refl
      (omega arith)

late_read : (perform true (Channel.new two_lines) reading).1 ≡ err timeout
unfolding read_line_or_eof
late_read = refl

perform-IsWiped_example : IsWiped (perform true (Channel.new two_lines) reading).0
perform-IsWiped_example = perform-IsWiped true (Channel.new two_lines) reading late_read
