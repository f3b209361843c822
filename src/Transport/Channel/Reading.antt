-- ===== src/Transport/Channel/Reading.antt =====
-- crates/assuan-transport/src/channel.rs: reading a line from input that the stream cuts into
-- reads.
use assuan_library_rs.Prelude.{
  ℕ, ◌+◌, ◌≤◌, ◌<◌, ◌≡◌, refl, sym, ap, ◌∙◌, ◌⊎◌, inl, inr, Bool, true, false, some, List, [], ◌∷◌,
  ◌++◌, append_assoc, Bytes, length, all, arith, ok, err, &&-true, &&-intro, length-append,
}
use assuan_library_rs.Protocol.Encode.{max_line_bytes}
use assuan_library_rs.Protocol.Frame.{line}
use assuan_library_rs.Protocol.Frame.Lines.{Holds, not_feed}
use assuan_library_rs.Protocol.Frame.Complete.{strip_cr}
use assuan_library_rs.Transport.Stream.{Stream, Read, got, read_failed, read_stalled, arrives}
use assuan_library_rs.Transport.Channel.{
  Channel, Outcome, drain, fill, after_drain, remaining, receive_loop,
}
use assuan_library_rs.Transport.Channel.Ahead.{Carries, fill-Carries, drain-line, drain-part}

-- No read returns more than the buffer that it was given can hold.
abbrev pub Fits : List Read → Type 0
Fits [] = Unit
Fits (got bytes ∷ reads) = (length bytes ≤ max_line_bytes) × Fits reads
Fits (read_failed ∷ reads) = Fits reads
Fits (read_stalled ∷ reads) = Fits reads

-- A line feed lies in the first part of the input, or the whole part belongs to the line.
split_line :
    (xs ys body rest : Bytes)
    → xs ++ ys ≡ body ++ b'\n' ∷ rest
    → ((left : Bytes) × (xs ≡ body ++ b'\n' ∷ left) × (rest ≡ left ++ ys))
      ⊎ ((more : Bytes) × (body ≡ xs ++ more) × (ys ≡ more ++ b'\n' ∷ rest))
split_line [] ys body rest e = inr (body, refl, e)
split_line (x ∷ xs) ys [] rest e = inl (xs, cc, cc)
split_line (x ∷ xs) ys (b ∷ body) rest e =
    let head : x ≡ b = cc in
    let tail : xs ++ ys ≡ body ++ b'\n' ∷ rest = cc in
    elim (split_line xs ys body rest tail) [
      | inl (left, p, q) ↦ inl (left, cc, q)
      | inr (more, p, q) ↦ inr (more, cc, q)
    ]

after_drain-line :
    (r : Outcome Bool) (next : Channel → Outcome (Unit {0}))
    → r.1 ≡ ok true
    → after_drain r next ≡ (r.0, ok tt)
after_drain-line (c, ok true) next e = refl
after_drain-line (c, ok false) next e = cc
after_drain-line (c, err x) next e = cc

pub after_drain-part :
    (r : Outcome Bool) (next : Channel → Outcome (Unit {0}))
    → r.1 ≡ ok false
    → after_drain r next ≡ next r.0
after_drain-part (c, ok true) next e = cc
after_drain-part (c, ok false) next e = refl
after_drain-part (c, err x) next e = cc

receive_loop-line :
    (reads : List Read) (c : Channel) (s : Stream)
    → (drain (remaining c s reads)).1 ≡ ok true
    → receive_loop c s reads ≡ ((drain (remaining c s reads)).0, ok tt)
unfolding receive_loop
receive_loop-line [] c s e = after_drain-line (drain (remaining c s [])) _ e
receive_loop-line (read_failed ∷ reads) c s e =
    after_drain-line (drain (remaining c s (read_failed ∷ reads))) _ e
receive_loop-line (read_stalled ∷ reads) c s e =
    after_drain-line (drain (remaining c s (read_stalled ∷ reads))) _ e
receive_loop-line (got [] ∷ reads) c s e =
    after_drain-line (drain (remaining c s (got [] ∷ reads))) _ e
receive_loop-line (got (byte ∷ bytes) ∷ reads) c s e =
    after_drain-line (drain (remaining c s (got (byte ∷ bytes) ∷ reads))) _ e

pub receive_loop-part :
    (byte : ℕ) (bytes : Bytes) (reads : List Read) (c : Channel) (s : Stream)
    → (drain (remaining c s (got (byte ∷ bytes) ∷ reads))).1 ≡ ok false
    → receive_loop c s (got (byte ∷ bytes) ∷ reads)
      ≡ receive_loop
          (fill (drain (remaining c s (got (byte ∷ bytes) ∷ reads))).0 (byte ∷ bytes))
          s
          reads
unfolding receive_loop
receive_loop-part byte bytes reads c s e =
    after_drain-part (drain (remaining c s (got (byte ∷ bytes) ∷ reads))) _ e

-- The channel after a line: what it has read ahead and what the stream still brings are the input
-- behind the line.
pub record Received (s : Stream) (write text rest : Bytes) (r : Outcome (Unit {0})) : Type 0 where
  pub ahead : Bytes
  pub reads : List Read
  pub verdict : r.1 ≡ ok tt
  pub text_ready : line r.0.line ≡ some text
  pub carries : Carries r.0 ahead
  pub stream : r.0.stream ≡ some (record s { reads = reads })
  pub write_kept : r.0.write ≡ write
  pub input : ahead ++ arrives reads ≡ rest
  pub small : Fits reads

pub all-append-left : (xs ys : Bytes) → all not_feed (xs ++ ys) ≡ true → all not_feed xs ≡ true
all-append-left [] ys h = refl
all-append-left (x ∷ xs) ys h =
    let (p, q) = &&-true (not_feed x) _ h in &&-intro p (all-append-left xs ys q)

pub all-append-right : (xs ys : Bytes) → all not_feed (xs ++ ys) ≡ true → all not_feed ys ≡ true
all-append-right [] ys h = h
all-append-right (x ∷ xs) ys h = all-append-right xs ys (&&-true (not_feed x) _ h).1

-- A channel whose line holds `text` and that has read `bytes` ahead.
pub record Waits (c : Channel) (text bytes : Bytes) : Type 0 where
  pub carries : Carries c bytes
  pub holds : Holds c.line text

pub remaining-Carries :
    (c : Channel) (s : Stream) (reads : List Read) (bytes : Bytes)
    → Carries c bytes
    → Carries (remaining c s reads) bytes
remaining-Carries c s reads bytes v = record { ahead = v.ahead; pending = v.pending; fits = v.fits }

-- The line lies in the bytes read ahead.
receive_ahead :
    (reads : List Read) (c : Channel) (s : Stream) (text body left rest : Bytes)
    → Waits c text (body ++ b'\n' ∷ left)
    → Fits reads
    → rest ≡ left ++ arrives reads
    → all not_feed body ≡ true
    → length text + length body < max_line_bytes
    → Received s c.write (strip_cr (text ++ body)) rest (receive_loop c s reads)
receive_ahead reads c s text body left rest w small e clean room =
    let (d, l) =
      drain-line (remaining c s reads) text body left
        (remaining-Carries c s reads (body ++ b'\n' ∷ left) w.carries) w.holds clean room in
    rw (receive_loop-line reads c s d.verdict) (record {
      ahead = left;
      reads = reads;
      verdict = refl;
      text_ready = l;
      carries = d.carries;
      stream = d.stream;
      write_kept = d.write;
      input = sym e;
      small = small;
    })

no_line : (body rest : Bytes) → [] ≡ body ++ b'\n' ∷ rest → ⊥
no_line [] rest e = cc
no_line (b ∷ body) rest e = cc

receive_last :
    (reads : List Read) (c : Channel) (s : Stream) (text bytes body rest : Bytes)
    → Waits c text bytes
    → Fits reads
    → bytes ++ arrives reads ≡ body ++ b'\n' ∷ rest
    → all not_feed body ≡ true
    → length text + length body < max_line_bytes
    → arrives reads ≡ []
    → Received s c.write (strip_cr (text ++ body)) rest (receive_loop c s reads)
receive_last reads c s text bytes body rest w small e clean room none_left =
    elim (split_line bytes (arrives reads) body rest e) [
      | inl (left, p, q) ↦
          receive_ahead reads c s text body left rest (rw p at w) small q clean room
      | inr (more, p, q) ↦ absurd (no_line more rest (rw none_left at q))
    ]

pub receive_loop-Received :
    (reads : List Read) (c : Channel) (s : Stream) (text bytes body rest : Bytes)
    → Waits c text bytes
    → Fits reads
    → bytes ++ arrives reads ≡ body ++ b'\n' ∷ rest
    → all not_feed body ≡ true
    → length text + length body < max_line_bytes
    → Received s c.write (strip_cr (text ++ body)) rest (receive_loop c s reads)
unfolding arrives
receive_loop-Received [] c s text bytes body rest w small e clean room =
    receive_last [] c s text bytes body rest w small e clean room refl
receive_loop-Received (read_failed ∷ reads) c s text bytes body rest w small e clean room =
    receive_last (read_failed ∷ reads) c s text bytes body rest w small e clean room refl
receive_loop-Received (read_stalled ∷ reads) c s text bytes body rest w small e clean room =
    receive_last (read_stalled ∷ reads) c s text bytes body rest w small e clean room refl
receive_loop-Received (got [] ∷ reads) c s text bytes body rest w small e clean room =
    receive_last (got [] ∷ reads) c s text bytes body rest w small e clean room refl
receive_loop-Received (got (byte ∷ more) ∷ reads) c s text bytes body rest w small e clean room =
    let chunk = byte ∷ more in
    elim (split_line bytes (chunk ++ arrives reads) body rest e) [
      | inl (left, p, q) ↦
          receive_ahead (got chunk ∷ reads) c s text body left rest (rw p at w) small q clean room
      | inr (left, p, q) ↦
          let sizes = length-append bytes left in
          let clean' : all not_feed (bytes ++ left) ≡ true = rw p at clean in
          let (d, h) =
            drain-part (remaining c s (got chunk ∷ reads)) text bytes
              (remaining-Carries c s (got chunk ∷ reads) bytes w.carries) w.holds
              (all-append-left bytes left clean') (omega (arith, ap length p)) in
          let c' = (drain (remaining c s (got chunk ∷ reads))).0 in
          let ih =
            receive_loop-Received reads (fill c' chunk) s (text ++ bytes) chunk left rest
              (record { carries = fill-Carries c' chunk d.carries small.0; holds = h }) small.1 q
              (all-append-right bytes left clean')
              (omega (arith, ap length p, length-append text bytes)) in
          let same : (text ++ bytes) ++ left ≡ text ++ body =
            append_assoc text bytes left ∙ ap (λ z. text ++ z) (sym p) in
          rw (receive_loop-part byte more reads c s d.verdict) (record {
            ahead = ih.ahead;
            reads = ih.reads;
            verdict = ih.verdict;
            text_ready = ih.text_ready ∙ ap (λ z. some (strip_cr z)) same;
            carries = ih.carries;
            stream = ih.stream;
            write_kept = ih.write_kept ∙ d.write;
            input = ih.input;
            small = ih.small;
          })
    ]

-- Between two calls: a stream, buffers of the limit's size, and the input that is still to come.
pub record IsOpen (c : Channel) (s : Stream) (input : Bytes) : Type 0 where
  pub ahead : Bytes
  pub stream : c.stream ≡ some s
  pub carries : Carries c ahead
  pub arriving : ahead ++ arrives s.reads ≡ input
  pub small : Fits s.reads
  pub size : length c.line.storage ≡ max_line_bytes
