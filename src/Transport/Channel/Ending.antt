-- ===== src/Transport/Channel/Ending.antt =====
-- crates/assuan-transport/src/channel.rs: the end of the input, at a line boundary and within a
-- line.
use assuan_library_rs.Prelude.{
  ◌+◌, ◌<◌, ◌≡◌, refl, sym, ap, ◌∙◌, true, false, none, List, [], ◌∷◌, ◌++◌, append_assoc,
  append-nil, Bytes, length, all, is_empty, arith, Result, ok, err, if◌then◌else◌, length-append,
}
use assuan_library_rs.Protocol.Error.{unexpected_eof}
use assuan_library_rs.Protocol.Encode.{max_line_bytes}
use assuan_library_rs.Protocol.Frame.{line, finish_eof}
use assuan_library_rs.Protocol.Frame.Lines.{Holds, not_feed}
use assuan_library_rs.Transport.Error.{TransportError, protocol}
use assuan_library_rs.Transport.Stream.{Stream, Read, got, read_failed, read_stalled, arrives}
use assuan_library_rs.Transport.Channel.{
  Channel, Outcome, receive_loop, finish_read, read_line_or_eof, drain, fill, at_eof, remaining,
}
use assuan_library_rs.Transport.Channel.Ahead.{fill-Carries, drain-part}
use assuan_library_rs.Transport.Channel.Reading.{
  Fits, Waits, IsOpen, receive_loop-part, after_drain-part, remaining-Carries, all-append-left,
  all-append-right,
}
use assuan_library_rs.Transport.Channel.Lines.{cleared, cleared-Waits, read_open, finish_read-ok}

-- The reads bring the input and then its end.
abbrev pub Ends : List Read → Type 0
Ends [] = ⊥
Ends (read_failed ∷ reads) = ⊥
Ends (read_stalled ∷ reads) = ⊥
Ends (got [] ∷ reads) = Unit
Ends (got (byte ∷ bytes) ∷ reads) = Ends reads

abbrev verdict_at_eof : Bytes → Result TransportError (Unit {0})
verdict_at_eof text = if is_empty text then ok tt else err (protocol unexpected_eof)

eof-Holds :
    (c : Channel) (text : Bytes)
    → Holds c.line text
    → ((at_eof c).1 ≡ verdict_at_eof text) × (line (at_eof c).0.line ≡ none)
unfolding finish_eof line
eof-Holds c [] h = ground (arith, h.len, h.ready, h.failed)
eof-Holds c (x ∷ text) h = ground (arith, h.len, h.ready, h.failed)

receive_loop-end :
    (reads : List Read) (c : Channel) (s : Stream)
    → (drain (remaining c s (got [] ∷ reads))).1 ≡ ok false
    → receive_loop c s (got [] ∷ reads)
      ≡ at_eof (remaining (fill (drain (remaining c s (got [] ∷ reads))).0 []) s reads)
unfolding receive_loop
receive_loop-end reads c s e = after_drain-part (drain (remaining c s (got [] ∷ reads))) _ e

receive_loop-eof :
    (reads : List Read) (c : Channel) (s : Stream) (text bytes body : Bytes)
    → Waits c text bytes
    → Fits reads
    → Ends reads
    → bytes ++ arrives reads ≡ body
    → all not_feed body ≡ true
    → length text + length body < max_line_bytes
    → ((receive_loop c s reads).1 ≡ verdict_at_eof (text ++ body))
      × (line (receive_loop c s reads).0.line ≡ none)
unfolding arrives
receive_loop-eof [] c s text bytes body w small ends e clean room = elim ends [ ]
receive_loop-eof (read_failed ∷ reads) c s text bytes body w small ends e clean room = elim ends [ ]
receive_loop-eof (read_stalled ∷ reads) c s text bytes body w small ends e clean room =
    elim ends [ ]
receive_loop-eof (got [] ∷ reads) c s text bytes body w small ends e clean room =
    let here = remaining c s (got [] ∷ reads) in
    let same : bytes ≡ body = sym (append-nil bytes) ∙ e in
    let (d, h) =
      drain-part here text bytes (remaining-Carries c s (got [] ∷ reads) bytes w.carries) w.holds
        (rw same clean) (omega (arith, ap length same)) in
    rw (receive_loop-end reads c s d.verdict)
      (eof-Holds (remaining (fill (drain here).0 []) s reads) (text ++ body) (rw same at h))
receive_loop-eof (got (byte ∷ more) ∷ reads) c s text bytes body w small ends e clean room =
    let chunk = byte ∷ more in
    let here = remaining c s (got chunk ∷ reads) in
    let left = chunk ++ arrives reads in
    let clean' : all not_feed (bytes ++ left) ≡ true = rw e clean in
    let sizes = length-append bytes left in
    let (d, h) =
      drain-part here text bytes (remaining-Carries c s (got chunk ∷ reads) bytes w.carries) w.holds
        (all-append-left bytes left clean') (omega (arith, ap length e)) in
    let ih =
      receive_loop-eof reads (fill (drain here).0 chunk) s (text ++ bytes) chunk left
        (record { carries = fill-Carries (drain here).0 chunk d.carries small.0; holds = h })
        small.1 ends refl (all-append-right bytes left clean')
        (omega (arith, ap length e, length-append text bytes)) in
    let same : (text ++ bytes) ++ left ≡ text ++ body =
      append_assoc text bytes left ∙ ap (λ z. text ++ z) e in
    rw (receive_loop-part byte more reads c s d.verdict) (rw same at ih)

finish_read-err :
    (r : Outcome (Unit {0})) {e : TransportError} → r.1 ≡ err e → (finish_read r).1 ≡ err e
finish_read-err (c, ok u) h = cc
finish_read-err (c, err x) h = cc

-- When the input that is still to come has no line feed and is shorter than a line may be, a read in
-- time that meets its end returns no line if there is no input left, and else fails as cut off.
pub read_line_or_eof-eof :
    (c : Channel) (s : Stream) (body : Bytes)
    → IsOpen c s body
    → Ends s.reads
    → all not_feed body ≡ true
    → length body < max_line_bytes
    → (read_line_or_eof false c).1
      ≡ (if is_empty body then ok none else err (protocol unexpected_eof))
read_line_or_eof-eof c s [] o ends clean room =
    let (v, l) =
      receive_loop-eof s.reads (cleared c) s [] o.ahead [] (cleared-Waits c s [] o) o.small ends
        o.arriving clean (omega arith) in
    let result = receive_loop (cleared c) s s.reads in
    ap (λ z. z.1) (read_open c s o.stream ∙ finish_read-ok result v) ∙ ap ok l
read_line_or_eof-eof c s (byte ∷ body) o ends clean room =
    let (v, l) =
      receive_loop-eof s.reads (cleared c) s [] o.ahead (byte ∷ body)
        (cleared-Waits c s (byte ∷ body) o) o.small ends o.arriving clean (omega arith) in
    let result = receive_loop (cleared c) s s.reads in
    ap (λ z. z.1) (read_open c s o.stream) ∙ finish_read-err result v
