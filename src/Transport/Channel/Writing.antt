-- ===== src/Transport/Channel/Writing.antt =====
-- crates/assuan-transport/src/channel.rs: writing a line, and what operations that fail leave.
use assuan_library_rs.Prelude.{
  ℕ, zero, suc, ◌<◌, ◌≡◌, refl, ap, ◌∙◌, inl, inr, Bool, true, false, Option, none, some, List, [],
  ◌∷◌, ◌++◌, Bytes, length, take, drop, replicate, any, all, ltb, ◌==◌, arith, Result, ok, err,
  Bool-cases, Option-cases, eq→==, ==→eq, le→ltb, take-append, length-snoc,
}
use assuan_library_rs.Protocol.Error.{ProtocolError}
use assuan_library_rs.Protocol.Command.{is_forbidden}
use assuan_library_rs.Protocol.Encode.{max_line_bytes, copy_at}
use assuan_library_rs.Protocol.Encode.Accepts.{any-split}
use assuan_library_rs.Protocol.Encode.Write.{over, copy_at-over}
use assuan_library_rs.Protocol.Frame
use assuan_library_rs.Protocol.Frame.{LineBuffer, line}
use assuan_library_rs.Transport.Error.{TransportError}
use assuan_library_rs.Transport.Stream.{Stream, Write, flushed, write_failed, write_stalled}
use assuan_library_rs.Transport.Channel.{
  Channel, Outcome, behind, deliver_to, write_checked, wipe, clear, strip_suffix, check_line,
  deliver, write_line, finish_read, read_line_or_eof, receive,
}

-- A complete line of text without forbidden bytes passes the checks.
strip_suffix-snoc : (last : ℕ) (front : Bytes) → strip_suffix last (front ++ last ∷ []) ≡ some front
unfolding strip_suffix
strip_suffix-snoc last [] = rw (eq→== last last refl) refl
strip_suffix-snoc last (x ∷ []) = ap (behind x) (strip_suffix-snoc last [])
strip_suffix-snoc last (x ∷ y ∷ front) = ap (behind x) (strip_suffix-snoc last (y ∷ front))

strip_suffix-eq-some :
    (last : ℕ) (bytes : Bytes) {front : Bytes}
    → strip_suffix last bytes ≡ some front
    → bytes ≡ front ++ last ∷ []
unfolding strip_suffix
strip_suffix-eq-some last [] e = cc
strip_suffix-eq-some last (x ∷ []) {front} e = elim (Bool-cases (x == last)) [
  | inl t ↦
      let q : ◌≡◌ {A = Option Bytes} (some []) (some front) = rw t at e in
      let n : front ≡ [] = cc in rw (n, ==→eq x last t) refl
  | inr f ↦ absurd (cc (rw f at e))
]
strip_suffix-eq-some last (x ∷ y ∷ bytes) {front} e =
    elim (Option-cases (strip_suffix last (y ∷ bytes))) [
      | inl n ↦ absurd (cc (rw n at e))
      | inr (inner, m) ↦
          let q : ◌≡◌ {A = Option Bytes} (some (x ∷ inner)) (some front) = rw m at e in
          let n : front ≡ x ∷ inner = cc in
          rw n (ap (λ z. x ∷ z) (strip_suffix-eq-some last (y ∷ bytes) m))
    ]

-- Buffers without a byte of the traffic, and no line.

pub record IsWiped (c : Channel) : Type 0 where
  pub storage : all (λ byte. byte == 0) c.line.storage ≡ true
  pub ahead : all (λ byte. byte == 0) c.ahead ≡ true
  pub write : all (λ byte. byte == 0) c.write ≡ true
  pub pending : c.pending ≡ 0
  pub no_line : line c.line ≡ none

zeros_all : (n : ℕ) → all (λ byte. byte == 0) (replicate n 0) ≡ true
zeros_all zero = refl
zeros_all (suc n) = zeros_all n

clear-IsWiped : (c : Channel) → IsWiped (clear c)
unfolding clear Frame.clear line
clear-IsWiped c = record {
  storage = zeros_all (length c.line.storage);
  ahead = zeros_all (length c.ahead);
  write = zeros_all (length c.write);
  pending = refl;
  no_line = refl;
}

-- A failed read or write leaves no byte of the traffic in any buffer of the channel.
deliver-IsWiped :
    (c : Channel) (s : Stream) (bytes : Bytes) (writes : List Write) {e : TransportError}
    → (deliver c s bytes writes).1 ≡ err e
    → IsWiped (deliver c s bytes writes).0
deliver-IsWiped c s bytes [] h = clear-IsWiped c
deliver-IsWiped c s bytes (flushed ∷ writes) h = cc
deliver-IsWiped c s bytes (write_failed n ∷ writes) h = clear-IsWiped _
deliver-IsWiped c s bytes (write_stalled n ∷ writes) h = clear-IsWiped _

deliver_to-IsWiped :
    (o : Option Stream) (c : Channel) (bytes : Bytes) {e : TransportError}
    → (deliver_to o c bytes).1 ≡ err e
    → IsWiped (deliver_to o c bytes).0
deliver_to-IsWiped none c bytes h = clear-IsWiped c
deliver_to-IsWiped (some s) c bytes h = deliver-IsWiped _ s _ s.writes h

write_checked-IsWiped :
    (r : Result ProtocolError (Unit {0})) (expired : Bool) (c : Channel) (bytes : Bytes)
    {e : TransportError}
    → (write_checked r expired c bytes).1 ≡ err e
    → IsWiped (write_checked r expired c bytes).0
write_checked-IsWiped (err x) expired c bytes h = clear-IsWiped c
write_checked-IsWiped (ok u) true c bytes h = clear-IsWiped c
write_checked-IsWiped (ok u) false c bytes h = deliver_to-IsWiped c.stream c bytes h

finish_read-IsWiped :
    (r : Outcome (Unit {0})) {e : TransportError}
    → (finish_read r).1 ≡ err e
    → IsWiped (finish_read r).0
finish_read-IsWiped (c, ok u) h = cc
finish_read-IsWiped (c, err x) h = clear-IsWiped c

write_line-IsWiped :
    (expired : Bool) (c : Channel) (bytes : Bytes) {e : TransportError}
    → (write_line expired c bytes).1 ≡ err e
    → IsWiped (write_line expired c bytes).0
unfolding write_line
write_line-IsWiped expired c bytes h = write_checked-IsWiped (check_line bytes) expired c bytes h

read_line_or_eof-IsWiped :
    (expired : Bool) (c : Channel) {e : TransportError}
    → (read_line_or_eof expired c).1 ≡ err e
    → IsWiped (read_line_or_eof expired c).0
unfolding read_line_or_eof
read_line_or_eof-IsWiped true c h = clear-IsWiped (record c { line = Frame.clear c.line })
read_line_or_eof-IsWiped false c h =
    finish_read-IsWiped (receive (record c { line = Frame.clear c.line })) h

-- A read, or a write of some bytes.
pub data Call : Type 0 where
  reading : Call
  writing : Bytes → Call

abbrev without_line : Outcome (Option Bytes) → Outcome (Unit {0})
without_line (c, ok o) = (c, ok tt)
without_line (c, err e) = (c, err e)

abbrev pub perform : Bool → Channel → Call → Outcome (Unit {0})
perform expired c reading = without_line (read_line_or_eof expired c)
perform expired c (writing bytes) = write_line expired c bytes

without_line-IsWiped :
    (r : Outcome (Option Bytes)) {e : TransportError}
    → (r.1 ≡ err e → IsWiped r.0)
    → (without_line r).1 ≡ err e
    → IsWiped (without_line r).0
without_line-IsWiped (c, ok o) k h = cc
without_line-IsWiped (c, err x) k h = k (cc)

-- Whatever fails in a read or a write (the deadline, a closed channel, the framing, the checks of the
-- line, the stream), the channel is left without a byte of the traffic in any of its buffers: all
-- three are zeros, nothing is read ahead and there is no line.
pub perform-IsWiped :
    (expired : Bool) (c : Channel) (call : Call) {e : TransportError}
    → (perform expired c call).1 ≡ err e
    → IsWiped (perform expired c call).0
perform-IsWiped expired c reading h =
    without_line-IsWiped (read_line_or_eof expired c) (λ k. read_line_or_eof-IsWiped expired c k) h
perform-IsWiped expired c (writing bytes) h = write_line-IsWiped expired c bytes h

no_cr : (text : Bytes) → any is_forbidden text ≡ false → strip_suffix b'\r' text ≡ none
no_cr text clean = elim (Option-cases (strip_suffix b'\r' text)) [
  | inl n ↦ n
  | inr (front, m) ↦
      let (a, b) = any-split front (b'\r' ∷ []) (rw (strip_suffix-eq-some b'\r' text m) at clean) in
      absurd (ground (arith, b))
]

check_line-clean :
    (text : Bytes)
    → any is_forbidden text ≡ false
    → length text < max_line_bytes
    → check_line (text ++ b'\n' ∷ []) ≡ ok tt
unfolding check_line
check_line-clean text clean fits =
    let size : ltb max_line_bytes (length (text ++ b'\n' ∷ [])) ≡ false =
      le→ltb _ _ (omega (arith, length-snoc text b'\n')) in
    rw (size, strip_suffix-snoc b'\n' text, no_cr text clean, clean) refl

-- The channel after a write that the stream took.
abbrev pub sent_on : Channel → Stream → Bytes → List Write → Channel
sent_on c s bytes writes = record c {
  stream = some (record s { writes = writes; delivered = s.delivered ++ bytes });
  write = wipe (copy_at c.write 0 bytes);
}

-- A clean line that fits, written in time to a stream that takes it, is delivered whole.
pub write_line-sent_on :
    (c : Channel) (s : Stream) (text : Bytes) (writes : List Write)
    → c.stream ≡ some s
    → length c.write ≡ max_line_bytes
    → s.writes ≡ flushed ∷ writes
    → any is_forbidden text ≡ false
    → length text < max_line_bytes
    → write_line false c (text ++ b'\n' ∷ []) ≡ (sent_on c s (text ++ b'\n' ∷ []) writes, ok tt)
unfolding write_line
write_line-sent_on c s text writes opened size takes clean fits =
    let bytes = text ++ b'\n' ∷ [] in
    let filled : copy_at c.write 0 bytes ≡ over bytes c.write =
      copy_at-over c.write [] bytes (omega (arith, length-snoc text b'\n')) in
    let front : take (length bytes) (copy_at c.write 0 bytes) ≡ bytes =
      ap (take (length bytes)) filled ∙ take-append bytes (drop (length bytes) c.write) in
    ap (λ z. write_checked z false c bytes) (check_line-clean text clean fits)
    ∙ ap (λ z. deliver_to z c bytes) opened
    ∙ ap (λ z. deliver (record c { write = copy_at c.write 0 bytes }) s z s.writes) front
    ∙ ap (deliver (record c { write = copy_at c.write 0 bytes }) s bytes) takes
