-- ===== src/Server/Fuel.antt =====
-- The bytes that are ahead of a channel, as the measure of the loops of
-- crates/assuan-server/src/session.rs and inquiry.rs.
pub mod Rounds
pub mod Enough
use assuan_library_rs.Prelude.{
  ℕ, zero, suc, ◌+◌, ◌-◌, ◌<◌, ◌≤◌, ◌≡◌, refl, sym, ap, ◌∙◌, Bool, true, false, arith, Option, none,
  some, List, [], ◌∷◌, Bytes, length, take, is_none, not, ◌==◌, Bool-cases, inl, inr, if◌then◌else◌,
  Result, ok, err,
}
use assuan_library_rs.Protocol.Error.{ProtocolError}
use assuan_library_rs.Protocol.Encode.{max_line_bytes}
use assuan_library_rs.Protocol.Frame
use assuan_library_rs.Protocol.Frame.{
  LineBuffer, feed, feed_loop, store, complete, overflow, line, finish_eof,
}
use assuan_library_rs.Transport.Error.{TransportError, closed, io, timeout, protocol}
use assuan_library_rs.Transport.Stream.{Stream, Read, got, read_failed, read_stalled}
use assuan_library_rs.Transport.Channel.{
  Channel, Outcome, clear, fed, drain, fill, at_eof, after_drain, remaining, receive_loop,
  receive_from, receive, finish_read, read_line_or_eof,
}
use assuan_library_rs.Server.Inquiry.{bytes_of_reads, bytes_of_stream, bytes_ahead}

-- What feeding an open line took of a nonempty input.
feed_loop_took :
    (b : LineBuffer) (byte : ℕ) (input : Bytes) (index n : ℕ)
    → (feed_loop b (byte ∷ input) index).1 ≡ ok n
    → index < n
unfolding feed_loop
feed_loop_took b byte [] index n e = ground arith
feed_loop_took b byte (x ∷ input) index n e =
    let ih = feed_loop_took (store b byte) x input (index + 1) n in ground arith

feed_took :
    (b : LineBuffer) (input : Bytes) (n : ℕ)
    → line b ≡ none
    → (feed b input).1 ≡ ok n
    → is_none (line (feed b input).0) ≡ false
    → 0 < n
unfolding feed line feed_loop
feed_took b [] n open_line e l = ground arith
feed_took b (byte ∷ input) n open_line e l = let h = feed_loop_took b byte input 0 n in ground arith

-- What a use of the buffered bytes leaves of them.
record Uses (c : Channel) (o : Outcome Bool) : Type 0 where
  stream : o.0.stream ≡ c.stream
  fewer : o.0.pending ≤ c.pending
  took : o.1 ≡ ok true → o.0.pending < c.pending
  waits : o.1 ≡ ok false → line o.0.line ≡ none

none_of_ok :
    {A : Type 0} (x : Option A)
    → ◌≡◌ {A = Result TransportError Bool} (ok (not (is_none x))) (ok false)
    → x ≡ none
none_of_ok none e = refl
none_of_ok (some a) e = cc

fed-Uses :
    (c : Channel) (o : LineBuffer × Result ProtocolError ℕ)
    → 0 < c.pending
    → ((n : ℕ) → o.1 ≡ ok n → is_none (line o.0) ≡ false → 0 < n)
    → Uses c (fed c o)
fed-Uses c (b, err e) some_left k = record {
  stream = refl;
  fewer = omega arith;
  took = λ f. cc;
  waits = λ f. cc;
}
fed-Uses c (b, ok n) some_left k =
    let k' = k n refl in
    record {
      stream = refl;
      fewer = omega arith;
      took = λ f. ground arith;
      waits = λ f. none_of_ok (line b) f;
    }

drain-Uses : (c : Channel) → line c.line ≡ none → Uses c (drain c)
unfolding drain
drain-Uses c open_line = elim (Bool-cases (c.pending == 0)) [
  | inl z ↦
      rw z (record { stream = refl; fewer = omega arith; took = λ f. cc; waits = λ f. open_line })
  | inr nz ↦ rw nz (
      fed-Uses c (feed c.line (take c.pending c.ahead)) (ground arith)
        (λ n. feed_took c.line (take c.pending c.ahead) n open_line))
]

-- At most `n` bytes are ahead afterwards, and fewer when a line was returned.
pub record Shrinks (n : ℕ) (o : Outcome (Unit {0})) : Type 0 where
  pub most : bytes_ahead o.0 ≤ n
  pub fewer : o.1 ≡ ok tt → is_none (line o.0.line) ≡ false → bytes_ahead o.0 < n

Shrinks-le : {m n : ℕ} {o : Outcome (Unit {0})} → Shrinks m o → m ≤ n → Shrinks n o
Shrinks-le h l = record { most = omega (arith, h.most); fewer = λ e k. omega (arith, h.fewer e k) }

after_drain-Shrinks :
    (o : Outcome Bool) (next : Channel → Outcome (Unit {0})) (n : ℕ)
    → bytes_ahead o.0 ≤ n
    → (o.1 ≡ ok true → bytes_ahead o.0 < n)
    → (o.1 ≡ ok false → Shrinks n (next o.0))
    → Shrinks n (after_drain o next)
after_drain-Shrinks (c, err e) next n l k f = record { most = l; fewer = λ e k'. cc }
after_drain-Shrinks (c, ok true) next n l k f = record { most = l; fewer = λ e k'. k refl }
after_drain-Shrinks (c, ok false) next n l k f = f refl

-- A round whose stream has `reads` to answer with.
round-Shrinks :
    (c : Channel) (s : Stream) (reads : List Read) (next : Channel → Outcome (Unit {0}))
    → line c.line ≡ none
    → ((c' : Channel)
        → bytes_of_stream c'.stream ≡ bytes_of_reads reads
        → c'.pending ≤ c.pending
        → line c'.line ≡ none
        → Shrinks (c.pending + bytes_of_reads reads) (next c'))
    → Shrinks (c.pending + bytes_of_reads reads) (after_drain (drain (remaining c s reads)) next)
unfolding bytes_ahead
round-Shrinks c s reads next open_line k =
    let here = remaining c s reads in
    let u = drain-Uses here open_line in
    let same : bytes_ahead (drain here).0 ≡ (drain here).0.pending + bytes_of_reads reads =
      ap (λ z. (drain here).0.pending + bytes_of_stream z) u.stream in
    after_drain-Shrinks (drain here) next (c.pending + bytes_of_reads reads)
      (omega (arith, same, u.fewer)) (λ e. omega (arith, same, u.took e))
      (λ e. k (drain here).0 (ap bytes_of_stream u.stream) u.fewer (u.waits e))

at_eof-Shrinks :
    (c : Channel) (n : ℕ) → line c.line ≡ none → bytes_ahead c ≤ n → Shrinks n (at_eof c)
at_eof-Shrinks c n open_line l =
    elim (finish_eof c.line)
      as (λ r. Shrinks n (elim r as (λ z. Outcome (Unit {0})) [
        | ok u ↦ (c, ok tt)
        | err e ↦ (c, err (protocol e))
      ])) [
        | ok u ↦ record { most = l; fewer = λ e k. cc }
        | err e ↦ record { most = l; fewer = λ f k. cc }
      ]

receive_loop-Shrinks :
    (reads : List Read) (c : Channel) (s : Stream)
    → line c.line ≡ none
    → Shrinks (c.pending + bytes_of_reads reads) (receive_loop c s reads)
unfolding receive_loop bytes_ahead
receive_loop-Shrinks [] c s open_line =
    round-Shrinks c s [] (λ c'. (c', err timeout)) open_line
      (λ c' b l f. record { most = omega (arith, b, l); fewer = λ e k. cc })
receive_loop-Shrinks (read_failed ∷ reads) c s open_line =
    round-Shrinks c s (read_failed ∷ reads) (λ c'. (remaining c' s reads, err io)) open_line
      (λ c' b l f. record { most = omega (arith, l); fewer = λ e k. cc })
receive_loop-Shrinks (read_stalled ∷ reads) c s open_line =
    round-Shrinks c s (read_stalled ∷ reads) (λ c'. (remaining c' s reads, err timeout)) open_line
      (λ c' b l f. record { most = omega (arith, l); fewer = λ e k. cc })
receive_loop-Shrinks (got [] ∷ reads) c s open_line =
    round-Shrinks c s (got [] ∷ reads) (λ c'. at_eof (remaining (fill c' []) s reads)) open_line
      (λ c' b l f.
        at_eof-Shrinks (remaining (fill c' []) s reads) (c.pending + (0 + bytes_of_reads reads)) f
          (omega arith))
receive_loop-Shrinks (got (byte ∷ bytes) ∷ reads) c s open_line =
    round-Shrinks c s (got (byte ∷ bytes) ∷ reads)
      (λ c'. receive_loop (fill c' (byte ∷ bytes)) s reads) open_line
      (λ c' b l f.
        Shrinks-le (receive_loop-Shrinks reads (fill c' (byte ∷ bytes)) s f) (omega arith))

receive_from-Shrinks :
    (stream : Option Stream) (c : Channel)
    → line c.line ≡ none
    → c.stream ≡ stream
    → Shrinks (bytes_ahead c) (receive_from stream c)
unfolding bytes_ahead
receive_from-Shrinks none c open_line e = record { most = omega arith; fewer = λ f k. cc }
receive_from-Shrinks (some s) c open_line e =
    Shrinks-le (receive_loop-Shrinks s.reads c s open_line) (omega (arith, ap bytes_of_stream e))

-- What a read leaves.
pub record Reads (c : Channel) (o : Outcome (Option Bytes)) : Type 0 where
  pub most : bytes_ahead o.0 ≤ bytes_ahead c
  pub fewer : {bytes : Bytes} → o.1 ≡ ok (some bytes) → bytes_ahead o.0 < bytes_ahead c

some_of_ok :
    {A : Type 0} (x : Option A) {a : A}
    → ◌≡◌ {A = Result TransportError (Option A)} (ok x) (ok (some a))
    → is_none x ≡ false
some_of_ok none e = cc
some_of_ok (some a) e = refl

finish_read-Reads :
    (c : Channel) (o : Outcome (Unit {0})) → Shrinks (bytes_ahead c) o → Reads c (finish_read o)
unfolding bytes_ahead clear
finish_read-Reads c (c', ok u) h = record {
  most = h.most;
  fewer = λ e. h.fewer refl (some_of_ok (line c'.line) e);
}
finish_read-Reads c (c', err x) h = record { most = omega (arith, h.most); fewer = λ e. cc }

pub read_line_or_eof-Reads : (expired : Bool) (c : Channel) → Reads c (read_line_or_eof expired c)
unfolding read_line_or_eof receive bytes_ahead clear Frame.clear line
read_line_or_eof-Reads true c = record { most = omega arith; fewer = λ e. cc }
read_line_or_eof-Reads false c =
    let cleared = record c { line = Frame.clear c.line } in
    finish_read-Reads c (receive cleared) (receive_from-Shrinks c.stream cleared refl refl)
