-- ===== src/Transport/Channel.antt =====
-- crates/assuan-transport/src/channel.rs: bounded lines over a stream. A method that changes the
-- channel returns it beside its result; `expired` is the test of the deadline before a call waits.
pub mod Ahead
pub mod Sizes
pub mod Reading
pub mod Lines
pub mod Fresh
pub mod Ending
pub mod Writing
use assuan_library_rs.Prelude.{
  ℕ, ◌+◌, ◌-◌, Bool, true, false, not, ◌||◌, Option, none, some, List, [], ◌∷◌, ◌++◌, Bytes, length,
  take, drop, replicate, any, is_none, ltb, ◌==◌, if◌then◌else◌, Result, ok, err,
}
use assuan_library_rs.Protocol.Error.{ProtocolError, line_too_long, invalid_line, unexpected_eof}
use assuan_library_rs.Protocol.Command.{is_forbidden}
use assuan_library_rs.Protocol.Encode.{max_line_bytes, copy_at}
use assuan_library_rs.Protocol.Frame
use assuan_library_rs.Protocol.Frame.{LineBuffer, feed, line, finish_eof}
use assuan_library_rs.Transport.Error.{TransportError, closed, io, timeout, protocol}
use assuan_library_rs.Transport.Stream.{
  Stream, Read, got, read_failed, read_stalled, Write, flushed, write_failed, write_stalled,
}

pub record Channel : Type 0 where
  pub stream : Option Stream
  pub line : LineBuffer
  pub ahead : Bytes
  pub pending : ℕ
  pub write : Bytes

abbrev pub Outcome {ℓ} : Type ℓ → Type ℓ
Outcome A = Channel × Result TransportError A

unfoldable pub new : Stream → Channel
new stream = record {
  stream = some stream;
  line = Frame.new;
  ahead = replicate max_line_bytes 0;
  pending = 0;
  write = replicate max_line_bytes 0;
}

unfoldable pub has_buffered_input : Channel → Bool
has_buffered_input c = not (c.pending == 0)

unfoldable pub received_line : Channel → Option Bytes
received_line c = line c.line

-- `zeroize` on the whole of a buffer.
abbrev pub wipe : Bytes → Bytes
wipe bytes = replicate (length bytes) 0

-- `clear`, which also runs when an operation ends before it is complete.
unfoldable pub clear : Channel → Channel
clear c = record c {
  line = Frame.clear c.line;
  ahead = wipe c.ahead;
  write = wipe c.write;
  pending = 0;
}

unfoldable pub close : Channel → Channel
unfolding clear
close c = clear (record c { stream = none })

-- `ahead.copy_within(consumed..pending, 0)`, and the zeroing behind what is left.
abbrev pub shift : Bytes → ℕ → ℕ → Bytes
shift ahead consumed pending =
    let left = pending - consumed in
    let moved = take left (drop consumed ahead) ++ drop left ahead in
    take left moved ++ replicate (length moved - left) 0

-- The buffered bytes fed to the line; the result says whether the line is complete.
abbrev pub fed : Channel → LineBuffer × Result ProtocolError ℕ → Outcome Bool
fed c (line', err e) = (record c { line = line' }, err (protocol e))
fed c (line', ok consumed) = (
  record c {
    line = line';
    ahead = shift c.ahead consumed c.pending;
    pending = c.pending - consumed;
  },
  ok (not (is_none (line line'))),
)

unfoldable pub drain : Channel → Outcome Bool
drain c = if c.pending == 0 then (c, ok false) else fed c (feed c.line (take c.pending c.ahead))

-- `read(&mut self.ahead)`.
abbrev pub fill : Channel → Bytes → Channel
fill c bytes = record c { ahead = copy_at c.ahead 0 bytes; pending = length bytes }

abbrev pub at_eof : Channel → Outcome (Unit {0})
at_eof c = elim (finish_eof c.line) [ ok u ↦ (c, ok tt) | err e ↦ (c, err (protocol e)) ]

-- What follows in a round of the loop: a complete line ends it, and else the stream is read.
abbrev pub after_drain : Outcome Bool → (Channel → Outcome (Unit {0})) → Outcome (Unit {0})
after_drain (c, err e) next = (c, err e)
after_drain (c, ok true) next = (c, ok tt)
after_drain (c, ok false) next = next c

-- The channel whose stream has the answers `reads` left.
abbrev pub remaining : Channel → Stream → List Read → Channel
remaining c s reads = record c { stream = some (record s { reads = reads }) }

-- The loop of `receive`: a round for each answer of the stream.
unfoldable pub receive_loop : Channel → Stream → List Read → Outcome (Unit {0})
unfolding drain
receive_loop c s [] = after_drain (drain (remaining c s [])) (λ c'. (c', err timeout))
receive_loop c s (read_failed ∷ reads) =
    after_drain (drain (remaining c s (read_failed ∷ reads))) (λ c'. (remaining c' s reads, err io))
receive_loop c s (read_stalled ∷ reads) =
    after_drain (drain (remaining c s (read_stalled ∷ reads)))
      (λ c'. (remaining c' s reads, err timeout))
receive_loop c s (got [] ∷ reads) =
    after_drain (drain (remaining c s (got [] ∷ reads)))
      (λ c'. at_eof (remaining (fill c' []) s reads))
receive_loop c s (got (byte ∷ bytes) ∷ reads) =
    after_drain (drain (remaining c s (got (byte ∷ bytes) ∷ reads)))
      (λ c'. receive_loop (fill c' (byte ∷ bytes)) s reads)

abbrev pub receive_from : Option Stream → Channel → Outcome (Unit {0})
receive_from none c = (c, err closed)
receive_from (some s) c = receive_loop c s s.reads

unfoldable pub receive : Channel → Outcome (Unit {0})
unfolding receive_loop
receive c = receive_from c.stream c

-- An operation that did not complete wipes every buffer.
abbrev pub finish_read : Outcome (Unit {0}) → Outcome (Option Bytes)
finish_read (c, ok u) = (c, ok (line c.line))
finish_read (c, err e) = (clear c, err e)

unfoldable pub read_line_or_eof : Bool → Channel → Outcome (Option Bytes)
unfolding receive clear
read_line_or_eof expired c =
    let cleared = record c { line = Frame.clear c.line } in
    if expired then (clear cleared, err timeout) else finish_read (receive cleared)

abbrev pub some_line : Outcome (Option Bytes) → Outcome Bytes
some_line (c, ok (some bytes)) = (c, ok bytes)
some_line (c, ok none) = (c, err (protocol unexpected_eof))
some_line (c, err e) = (c, err e)

unfoldable pub read_line : Bool → Channel → Outcome Bytes
unfolding read_line_or_eof
read_line expired c = some_line (read_line_or_eof expired c)

abbrev pub behind : ℕ → Option Bytes → Option Bytes
behind byte none = none
behind byte (some front) = some (byte ∷ front)

-- `bytes.strip_suffix(b"\n")` and `.strip_suffix(b"\r")`.
unfoldable pub strip_suffix : ℕ → Bytes → Option Bytes
strip_suffix last [] = none
strip_suffix last (byte ∷ []) = if byte == last then some [] else none
strip_suffix last (byte ∷ b ∷ bytes) = behind byte (strip_suffix last (b ∷ bytes))

abbrev pub or_whole : Option Bytes → Bytes → Bytes
or_whole none bytes = bytes
or_whole (some front) bytes = front

-- The checks of a line before it is written.
abbrev pub check_body : Option Bytes → Result ProtocolError (Unit {0})
check_body none = err invalid_line
check_body (some body) =
    if any is_forbidden (or_whole (strip_suffix b'\r' body) body) then err invalid_line else ok tt

unfoldable pub check_line : Bytes → Result ProtocolError (Unit {0})
unfolding strip_suffix
check_line bytes =
    if ltb max_line_bytes (length bytes)
    then err line_too_long
    else check_body (strip_suffix b'\n' bytes)

-- The stream's answer to the write of the bytes at the front of the write buffer.
abbrev pub deliver : Channel → Stream → Bytes → List Write → Outcome (Unit {0})
deliver c s bytes [] = (clear c, err timeout)
deliver c s bytes (flushed ∷ writes) = (
  record c {
    stream = some (record s { writes = writes; delivered = s.delivered ++ bytes });
    write = wipe c.write;
  },
  ok tt,
)
deliver c s bytes (write_failed n ∷ writes) = (
  clear (record c {
    stream = some (record s { writes = writes; delivered = s.delivered ++ take n bytes });
  }),
  err io,
)
deliver c s bytes (write_stalled n ∷ writes) = (
  clear (record c {
    stream = some (record s { writes = writes; delivered = s.delivered ++ take n bytes });
  }),
  err timeout,
)

abbrev pub deliver_to : Option Stream → Channel → Bytes → Outcome (Unit {0})
deliver_to none c bytes = (clear c, err closed)
deliver_to (some s) c bytes =
    let filled = copy_at c.write 0 bytes in
    deliver (record c { write = filled }) s (take (length bytes) filled) s.writes

abbrev pub write_checked :
    Result ProtocolError (Unit {0}) → Bool → Channel → Bytes → Outcome (Unit {0})
write_checked (err e) expired c bytes = (clear c, err (protocol e))
write_checked (ok u) expired c bytes =
    if expired then (clear c, err timeout) else deliver_to c.stream c bytes

unfoldable pub write_line : Bool → Channel → Bytes → Outcome (Unit {0})
unfolding clear check_line
write_line expired c bytes = write_checked (check_line bytes) expired c bytes
