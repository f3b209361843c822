-- ===== src/Server/Fuel/Rounds.antt =====
-- The bytes that are ahead of a channel, over the writes and reads of a command.
use assuan_library_rs.Prelude.{
  ℕ, ◌≤◌, ◌≡◌, refl, ap, Bool, true, false, arith, Option, none, some, List, [], ◌∷◌, Bytes, length,
  take, Result, ok, err,
}
use assuan_library_rs.Protocol.Error.{ProtocolError}
use assuan_library_rs.Protocol.Encode.{copy_at}
use assuan_library_rs.Transport.Stream.{Stream, Write, flushed, write_failed, write_stalled}
use assuan_library_rs.Transport.Channel.{
  Channel, clear, close, deliver, deliver_to, write_checked, check_line, write_line,
}
use assuan_library_rs.Server.Context.{Io, expired, abandon}
use assuan_library_rs.Server.Inquiry.{Inquiry, Nexted, bytes_ahead, bytes_of_stream, next_from}
use assuan_library_rs.Server.Inquiry
use assuan_library_rs.Server.Stable.{IsStable}
use assuan_library_rs.Server.Stable.Serves.{Finals}
use assuan_library_rs.Server.Fuel.{read_line_or_eof-Reads}

deliver-le :
    (c : Channel) (s : Stream) (bytes : Bytes) (writes : List Write)
    → c.stream ≡ some s
    → bytes_ahead (deliver c s bytes writes).0 ≤ bytes_ahead c
unfolding bytes_ahead clear
deliver-le c s bytes [] e = omega arith
deliver-le c s bytes (flushed ∷ writes) e = omega (arith, ap bytes_of_stream e)
deliver-le c s bytes (write_failed n ∷ writes) e = omega (arith, ap bytes_of_stream e)
deliver-le c s bytes (write_stalled n ∷ writes) e = omega (arith, ap bytes_of_stream e)

deliver_to-le :
    (stream : Option Stream) (c : Channel) (bytes : Bytes)
    → c.stream ≡ stream
    → bytes_ahead (deliver_to stream c bytes).0 ≤ bytes_ahead c
unfolding bytes_ahead clear
deliver_to-le none c bytes e = omega arith
deliver_to-le (some s) c bytes e =
    let filled = copy_at c.write 0 bytes in
    deliver-le (record c { write = filled }) s (take (length bytes) filled) s.writes e

write_checked-le :
    (r : Result ProtocolError (Unit {0})) (expired : Bool) (c : Channel) (bytes : Bytes)
    → bytes_ahead (write_checked r expired c bytes).0 ≤ bytes_ahead c
unfolding bytes_ahead clear
write_checked-le (err e) expired c bytes = omega arith
write_checked-le (ok u) true c bytes = omega arith
write_checked-le (ok u) false c bytes = deliver_to-le c.stream c bytes refl

write_line-le :
    (expired : Bool) (c : Channel) (bytes : Bytes)
    → bytes_ahead (write_line expired c bytes).0 ≤ bytes_ahead c
unfolding write_line
write_line-le expired c bytes = write_checked-le (check_line bytes) expired c bytes

abandon-le : (io : Io) → bytes_ahead (abandon io).channel ≤ bytes_ahead io.channel
unfolding abandon close clear bytes_ahead
abandon-le io = omega arith

decoded-le :
    (c : Channel) (bytes : Bytes) → bytes_ahead (Inquiry.decoded_line c bytes) ≤ bytes_ahead c
unfolding bytes_ahead
decoded-le c bytes = omega arith

abbrev pub Within : ℕ → Io → Type 0
Within n io = bytes_ahead io.channel ≤ n

pub Within-IsStable : (n : ℕ) → IsStable (Within n)
Within-IsStable n = record {
  responds = λ io event c p. p;
  requests = λ io event p. p;
  writes = λ io bytes p. omega (arith, p, write_line-le (expired io) io.channel bytes);
  reads = λ io p. omega (arith, p, (read_line_or_eof-Reads (expired io) io.channel).most);
  decodes = λ io bytes p. omega (arith, p, decoded-le io.channel bytes);
  abandons = λ io p. omega (arith, p, abandon-le io);
}

pub Within-Finals : (n : ℕ) → Finals (Within n)
Within-Finals n io event p = p
