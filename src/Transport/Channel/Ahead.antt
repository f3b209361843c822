-- ===== src/Transport/Channel/Ahead.antt =====
-- The bytes that a channel has read ahead, and one round of feeding them to the line.
use assuan_library_rs.Prelude.{
  ℕ, ◌+◌, ◌-◌, ◌≤◌, ◌<◌, ◌≡◌, ◌≢◌, refl, sym, ap, ◌∙◌, Bool, true, false, not, none, some, [], ◌∷◌,
  ◌++◌, append-nil, append_assoc, Bytes, length, take, drop, replicate, all, is_none, arith, Result,
  ok, err, take-append, drop-append, length-append, length-drop, drop-replicate, length-snoc, eq→==,
  ne→==, if◌then◌else◌,
}
use assuan_library_rs.Protocol.Error.{ProtocolError}
use assuan_library_rs.Protocol.Encode.{max_line_bytes, copy_at}
use assuan_library_rs.Protocol.Encode.Write.{over, copy_at-over}
use assuan_library_rs.Protocol.Frame.{LineBuffer, zeros, feed, feed_loop, line}
use assuan_library_rs.Protocol.Frame.Lines.{Holds, not_feed, feed_part, length-zeros}
use assuan_library_rs.Protocol.Frame.Chunks.{feed-feed_loop}
use assuan_library_rs.Protocol.Frame.Complete.{strip_cr, feed-line}
use assuan_library_rs.Transport.Channel.{Channel, Outcome, shift, fed, drain, fill}

-- The channel has read ahead exactly `bytes`; the rest of the buffer is zeros.
pub record Carries (c : Channel) (bytes : Bytes) : Type 0 where
  pub ahead : c.ahead ≡ over bytes zeros
  pub pending : c.pending ≡ length bytes
  pub fits : length bytes ≤ max_line_bytes

drop-zeros : (n : ℕ) → drop n zeros ≡ replicate (max_line_bytes - n) 0
unfolding zeros
drop-zeros n = drop-replicate n max_line_bytes 0

length-over :
    (bytes : Bytes) → length bytes ≤ max_line_bytes → length (over bytes zeros) ≡ max_line_bytes
length-over bytes h = omega (
  arith,
  length-append bytes (drop (length bytes) zeros),
  length-drop (length bytes) zeros,
  length-zeros,
)

abbrev compact : ℕ → Bytes → Bytes
compact n moved = take n moved ++ replicate (length moved - n) 0

compact-append :
    (front back : Bytes)
    → compact (length front) (front ++ back) ≡ front ++ replicate (length back) 0
compact-append front back =
    let n : length (front ++ back) - length front ≡ length back =
      omega (arith, length-append front back) in
    ap (λ z. z ++ replicate (length (front ++ back) - length front) 0) (take-append front back)
    ∙ ap (λ z. front ++ replicate z 0) n

-- Moving what is left to the front leaves zeros behind it.
shift-over :
    (used left : Bytes)
    → length (used ++ left) ≤ max_line_bytes
    → shift (over (used ++ left) zeros) (length used) (length (used ++ left)) ≡ over left zeros
shift-over used left h =
    let whole = over (used ++ left) zeros in
    let n : length (used ++ left) - length used ≡ length left =
      omega (arith, length-append used left) in
    let back = drop (length left) whole in
    let size : length back ≡ max_line_bytes - length left =
      length-drop (length left) whole ∙ ap (λ z. z - length left) (length-over (used ++ left) h) in
    let rest = drop (length (used ++ left)) zeros in
    let front : take (length left) (drop (length used) whole) ≡ left =
      ap (λ z. take (length left) (drop (length used) z)) (append_assoc used left rest)
      ∙ ap (take (length left)) (drop-append used (left ++ rest))
      ∙ take-append left rest in
    ap (λ z. compact z (take z (drop (length used) whole) ++ drop z whole)) n
    ∙ ap (λ z. compact (length left) (z ++ back)) front
    ∙ compact-append left back
    ∙ ap (λ z. left ++ replicate z 0) size
    ∙ ap (λ z. left ++ z) (sym (drop-zeros (length left)))

pub fill-Carries :
    (c : Channel) (bytes : Bytes)
    → Carries c []
    → length bytes ≤ max_line_bytes
    → Carries (fill c bytes) bytes
fill-Carries c bytes v h = record {
  ahead =
      ap (λ z. copy_at z 0 bytes) v.ahead
      ∙ copy_at-over zeros [] bytes (omega (arith, length-zeros));
  pending = refl;
  fits = h;
}

fed-ok :
    (c : Channel) (r : LineBuffer × Result ProtocolError ℕ) (n : ℕ)
    → r.1 ≡ ok n
    → fed c r ≡ (
      record c { line = r.0; ahead = shift c.ahead n c.pending; pending = c.pending - n },
      ok (not (is_none (line r.0))),
    )
fed-ok c (b, ok m) n e = let same : m ≡ n = cc in ap (λ z. fed c (b, ok z)) same
fed-ok c (b, err x) n e = cc

-- The channel after a round: the stream and the write buffer are as before.
pub record Drained (c : Channel) (rest : Bytes) (done : Bool) (r : Outcome Bool) : Type 0 where
  pub verdict : r.1 ≡ ok done
  pub carries : Carries r.0 rest
  pub stream : r.0.stream ≡ c.stream
  pub write : r.0.write ≡ c.write

drain_fed :
    (c : Channel) (bytes : Bytes) (n : ℕ)
    → Carries c bytes
    → 0 < length bytes
    → (feed c.line bytes).1 ≡ ok n
    → drain c ≡ (
      record c {
        line = (feed c.line bytes).0;
        ahead = shift c.ahead n c.pending;
        pending = c.pending - n;
      },
      ok (not (is_none (line (feed c.line bytes).0))),
    )
unfolding drain
drain_fed c bytes n v h e =
    let busy : c.pending ≢ 0 = λ z. omega (arith, v.pending) in
    let read : take c.pending c.ahead ≡ bytes =
      ap (λ z. take z c.ahead) v.pending
      ∙ ap (take (length bytes)) v.ahead
      ∙ take-append bytes (drop (length bytes) zeros) in
    ap (λ z. if z then (c, ok false) else fed c (feed c.line (take c.pending c.ahead)))
      (ne→== c.pending 0 busy)
    ∙ ap (λ z. fed c (feed c.line z)) read
    ∙ fed-ok c (feed c.line bytes) n e

drained :
    (c : Channel) (used left : Bytes)
    → Carries c (used ++ left)
    → 0 < length (used ++ left)
    → (feed c.line (used ++ left)).1 ≡ ok (length used)
    → Drained c left (not (is_none (line (feed c.line (used ++ left)).0))) (drain c)
      × ((drain c).0.line ≡ (feed c.line (used ++ left)).0)
drained c used left v h e = rw (drain_fed c (used ++ left) (length used) v h e) (
  record {
    verdict = refl;
    carries = record {
      ahead =
          ap (λ z. shift z (length used) c.pending) v.ahead
          ∙ ap (shift (over (used ++ left) zeros) (length used)) v.pending
          ∙ shift-over used left v.fits;
      pending = omega (arith, v.pending, length-append used left);
      fits = omega (arith, v.fits, length-append used left);
    };
    stream = refl;
    write = refl;
  },
  refl,
)

-- A complete line is taken off the bytes read ahead.
pub drain-line :
    (c : Channel) (text body rest : Bytes)
    → Carries c (body ++ b'\n' ∷ rest)
    → Holds c.line text
    → all not_feed body ≡ true
    → length text + length body < max_line_bytes
    → Drained c rest true (drain c) × (line (drain c).0.line ≡ some (strip_cr (text ++ body)))
drain-line c text body rest v h clean room =
    let feed_lf = b'\n' ∷ [] in
    let whole : (body ++ feed_lf) ++ rest ≡ body ++ b'\n' ∷ rest = append_assoc body feed_lf rest in
    let (n, l, _) = feed-line c.line text body rest h clean room in
    let count : (feed c.line ((body ++ feed_lf) ++ rest)).1 ≡ ok (length (body ++ feed_lf)) =
      ap (λ z. (feed c.line z).1) whole ∙ n ∙ ap ok (omega (arith, length-snoc body b'\n')) in
    let done : line (feed c.line ((body ++ feed_lf) ++ rest)).0 ≡ some (strip_cr (text ++ body)) =
      ap (λ z. line (feed c.line z).0) whole ∙ l in
    let (d, same) =
      drained c (body ++ feed_lf) rest (rw whole v)
        (omega (arith, length-append (body ++ feed_lf) rest, length-snoc body b'\n')) count in
    (
      record {
        verdict = d.verdict ∙ ap (λ z. ok (not (is_none z))) done;
        carries = d.carries;
        stream = d.stream;
        write = d.write;
      },
      ap line same ∙ done,
    )

line-Holds : (b : LineBuffer) (text : Bytes) → Holds b text → line b ≡ none
unfolding line
line-Holds b text h = simp h.ready

drain_nothing : (c : Channel) → Carries c [] → drain c ≡ (c, ok false)
unfolding drain
drain_nothing c v =
    ap (λ z. if z then (c, ok false) else fed c (feed c.line (take c.pending c.ahead)))
      (eq→== c.pending 0 v.pending)

-- Without a line feed, all of them go to the line.
pub drain-part :
    (c : Channel) (text bytes : Bytes)
    → Carries c bytes
    → Holds c.line text
    → all not_feed bytes ≡ true
    → length text + length bytes < max_line_bytes
    → Drained c [] false (drain c) × Holds (drain c).0.line (text ++ bytes)
drain-part c text [] v h clean room =
    rw (drain_nothing c v)
      (record { verdict = refl; carries = v; stream = refl; write = refl }, rw append-nil h)
drain-part c text (byte ∷ bytes) v h clean room =
    let part = byte ∷ bytes in
    let whole : part ++ [] ≡ part = append-nil part in
    let (w, n) = feed_part part c.line text 0 clean room h in
    let fed_part : feed c.line (part ++ []) ≡ feed_loop c.line part 0 =
      ap (feed c.line) whole ∙ feed-feed_loop c.line part h.failed h.ready in
    let (d, same) =
      drained c part [] (rw whole v) (omega (arith, ap length whole))
        (ap (λ z. z.1) fed_part ∙ n ∙ ap ok (omega arith)) in
    (
      record {
        verdict =
            d.verdict
            ∙ ap (λ z. ok (not (is_none (line z.0)))) fed_part
            ∙ ap (λ z. ok (not (is_none z)))
                (line-Holds (feed_loop c.line part 0).0 (text ++ part) w);
        carries = d.carries;
        stream = d.stream;
        write = d.write;
      },
      rw (same ∙ ap (λ z. z.0) fed_part) w,
    )
