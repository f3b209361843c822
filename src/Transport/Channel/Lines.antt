-- ===== src/Transport/Channel/Lines.antt =====
-- crates/assuan-transport/src/channel.rs: whole reads, one after the other.
use assuan_library_rs.Prelude.{
  ℕ, zero, suc, ◌<◌, ◌≡◌, refl, ap, ◌∙◌, true, false, some, List, [], ◌∷◌, ◌++◌, Bytes, length, all,
  map, arith, ok, err,
}
use assuan_library_rs.Protocol.Encode.{max_line_bytes}
use assuan_library_rs.Protocol.Frame
use assuan_library_rs.Protocol.Frame.{LineBuffer, line, finish_eof}
use assuan_library_rs.Protocol.Frame.Lines.{new-Holds, not_feed}
use assuan_library_rs.Protocol.Frame.Complete.{strip_cr, clear-new}
use assuan_library_rs.Transport.Stream.{Stream, Read}
use assuan_library_rs.Transport.Channel.{
  Channel, Outcome, receive_loop, receive_from, receive, finish_read, read_line_or_eof, read_line,
}
use assuan_library_rs.Transport.Channel.Reading.{Waits, IsOpen, receive_loop-Received}
use assuan_library_rs.Transport.Channel.Sizes.{size_clear, size_receive_loop}

-- The channel at the start of a read.
abbrev pub cleared : Channel → Channel
cleared c = record c { line = Frame.clear c.line }

pub cleared-Waits :
    (c : Channel) (s : Stream) (input : Bytes) (o : IsOpen c s input) → Waits (cleared c) [] o.ahead
cleared-Waits c s input o = record {
  carries = record { ahead = o.carries.ahead; pending = o.carries.pending; fits = o.carries.fits };
  holds = rw (clear-new c.line o.size) new-Holds;
}

pub finish_read-ok :
    (r : Outcome (Unit {0})) → r.1 ≡ ok tt → finish_read r ≡ (r.0, ok (line r.0.line))
finish_read-ok (c, ok u) e = refl
finish_read-ok (c, err x) e = cc

pub read_open :
    (c : Channel) (s : Stream)
    → c.stream ≡ some s
    → read_line_or_eof false c ≡ finish_read (receive_loop (cleared c) s s.reads)
unfolding read_line_or_eof receive
read_open c s e = ap (λ z. finish_read (receive_from z (cleared c))) e

-- The channel after a read, with the input that is left.
pub record Next (s : Stream) (rest : Bytes) (c : Channel) : Type 0 where
  pub reads : List Read
  pub opened : IsOpen c (record s { reads = reads }) rest

-- When the input that is still to come begins with a line that fits, a read in time returns that
-- line, however the stream cuts the input into reads, and leaves the input behind it.
pub read_line_or_eof-line :
    (c : Channel) (s : Stream) (body rest : Bytes)
    → IsOpen c s (body ++ b'\n' ∷ rest)
    → all not_feed body ≡ true
    → length body < max_line_bytes
    → ((read_line_or_eof false c).1 ≡ ok (some (strip_cr body)))
      × Next s rest (read_line_or_eof false c).0
read_line_or_eof-line c s body rest o clean room =
    let got_line =
      receive_loop-Received s.reads (cleared c) s [] o.ahead body rest
        (cleared-Waits c s (body ++ b'\n' ∷ rest) o) o.small o.arriving clean (omega arith) in
    let result = receive_loop (cleared c) s s.reads in
    let size : length result.0.line.storage ≡ max_line_bytes =
      size_receive_loop s.reads (cleared c) s ∙ size_clear c.line ∙ o.size in
    let whole = read_open c s o.stream ∙ finish_read-ok result got_line.verdict in
    rw whole (
      ap ok got_line.text_ready,
      record {
        reads = got_line.reads;
        opened = record {
          ahead = got_line.ahead;
          stream = got_line.stream;
          carries = got_line.carries;
          arriving = got_line.input;
          small = got_line.small;
          size = size;
        };
      },
    )

-- Reads in a row, up to the first failure.
abbrev and_text : Bytes → Outcome (List Bytes) → Outcome (List Bytes)
and_text text (c, ok texts) = (c, ok (text ∷ texts))
and_text text (c, err e) = (c, err e)

abbrev then_lines : Outcome Bytes → (Channel → Outcome (List Bytes)) → Outcome (List Bytes)
then_lines (c, ok text) next = and_text text (next c)
then_lines (c, err e) next = (c, err e)

unfoldable pub read_lines : ℕ → Channel → Outcome (List Bytes)
read_lines zero c = (c, ok [])
read_lines (suc n) c = then_lines (read_line false c) (read_lines n)

-- Texts that are lines, and the input that they make.
abbrev pub AreLines : List Bytes → Type 0
AreLines [] = Unit
AreLines (body ∷ bodies) =
    (all not_feed body ≡ true) × (length body < max_line_bytes) × AreLines bodies

abbrev pub lines_of : List Bytes → Bytes → Bytes
lines_of [] rest = rest
lines_of (body ∷ bodies) rest = body ++ b'\n' ∷ lines_of bodies rest

some_line-ok :
    (c : Channel) {text : Bytes}
    → (read_line_or_eof false c).1 ≡ ok (some text)
    → read_line false c ≡ ((read_line_or_eof false c).0, ok text)
unfolding read_line
some_line-ok c e = ground (arith, e)

and_text-ok :
    (text : Bytes) (r : Outcome (List Bytes)) {texts : List Bytes}
    → r.1 ≡ ok texts
    → and_text text r ≡ (r.0, ok (text ∷ texts))
and_text-ok text (c, ok ts) e = ap (λ z. (c, ok (text ∷ z))) (cc)
and_text-ok text (c, err x) e = cc

-- A channel returns the lines of its input in their order, each without its line feed and carriage
-- return, however the stream cuts the input into reads, and then has the input behind them.
pub read_lines-lines :
    (bodies : List Bytes) (c : Channel) (s : Stream) (rest : Bytes)
    → IsOpen c s (lines_of bodies rest)
    → AreLines bodies
    → ((read_lines (length bodies) c).1 ≡ ok (map strip_cr bodies))
      × Next s rest (read_lines (length bodies) c).0
unfolding read_lines
read_lines-lines [] c s rest o lines = (refl, record { reads = s.reads; opened = o })
read_lines-lines (body ∷ bodies) c s rest o lines =
    let (e, next) = read_line_or_eof-line c s body (lines_of bodies rest) o lines.0 lines.1 in
    let c' = (read_line_or_eof false c).0 in
    let (r, after) =
      read_lines-lines bodies c' (record s { reads = next.reads }) rest next.opened lines.2 in
    let whole : read_lines (suc (length bodies)) c
        ≡ ((read_lines (length bodies) c').0, ok (strip_cr body ∷ map strip_cr bodies)) =
      ap (λ z. then_lines z (read_lines (length bodies))) (some_line-ok c e)
      ∙ and_text-ok (strip_cr body) (read_lines (length bodies) c') r in
    rw whole (refl, record { reads = after.reads; opened = after.opened })
