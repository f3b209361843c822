-- ===== src/Protocol/Frame/Complete.antt =====
-- crates/assuan-protocol/src/frame.rs: whole lines, and lines that are too long.
use native.Mathlib.Nat.{zero-add}
use assuan_library_rs.Prelude.{
  ℕ, suc, ◌+◌, ◌-◌, ◌≤◌, ◌<◌, ◌≡◌, refl, ap, ◌∙◌, true, false, ◌&&◌, inl, inr, some, [], ◌∷◌, ◌++◌,
  append_assoc, Bytes, length, get_or, take, drop, replicate, all, ltb, ◌==◌, if◌then◌else◌, arith,
  Result, ok, err, Bool-cases, &&-true, length-snoc, length-append, length-set, length-drop, ==→ne,
}
use assuan_library_rs.Protocol.Error.{ProtocolError, line_too_long}
use assuan_library_rs.Protocol.Encode.{max_line_bytes}
use assuan_library_rs.Protocol.Frame.{
  LineBuffer, Fed, zeros, new, clear, store, complete, overflow, feed_loop, feed, line, finish_eof,
}
use assuan_library_rs.Protocol.Frame.Chunks.{feed-feed_loop, feed-append, and_feed, add_count}
use assuan_library_rs.Protocol.Frame.Lines.{
  Holds, store-Holds, not_feed, feed_part, length-zeros, feed_on,
}

-- The line of a text: the text without a carriage return at its end.
abbrev pub strip_cr : Bytes → Bytes
strip_cr [] = []
strip_cr (c ∷ []) = if c == b'\r' then [] else c ∷ []
strip_cr (c ∷ d ∷ r) = c ∷ strip_cr (d ∷ r)

-- `complete` and `line` on the bytes before the line feed.
abbrev cut : ℕ → Bytes → Bytes
cut n storage = take (if ltb 0 n && (get_or storage (n - 1) 0 == b'\r') then n - 1 else n) storage

suc-sub-one : (n : ℕ) → suc n - 1 ≡ n
suc-sub-one n = omega arith

zero-ltb : (n : ℕ) → ltb 0 (suc n) ≡ true
zero-ltb n = ground arith

cut-cons : (c n : ℕ) (s : Bytes) → cut (suc (suc n)) (c ∷ s) ≡ c ∷ cut (suc n) s
cut-cons c n s =
    rw (suc-sub-one (suc n), suc-sub-one n, zero-ltb (suc n), zero-ltb n)
      (elim (Bool-cases (get_or s n 0 == b'\r')) [ inl t ↦ rw t | inr f ↦ rw f ])

cut-strip_cr : (text rest : Bytes) → cut (length text) (text ++ rest) ≡ strip_cr text
cut-strip_cr [] rest = refl
cut-strip_cr (c ∷ []) rest = ground arith
cut-strip_cr (c ∷ d ∷ r) rest =
    cut-cons c (length r) (d ∷ (r ++ rest)) ∙ ap (λ z. c ∷ z) (cut-strip_cr (d ∷ r) rest)

-- What a line feed makes of a buffer that holds a text.
line-complete :
    (b : LineBuffer) (text : Bytes)
    → length text < max_line_bytes
    → Holds b text
    → line (complete (store b b'\n')) ≡ some (strip_cr text)
unfolding line
line-complete b text h v =
    let w = store-Holds b text b'\n' h v in
    let n : b.len + 1 - 1 ≡ length text = omega (arith, v.len) in
    let rest = drop (length (text ++ b'\n' ∷ [])) zeros in
    ap some (
      ap (λ z. cut (b.len + 1 - 1) z) (w.storage ∙ append_assoc text (b'\n' ∷ []) rest)
      ∙ ap (λ z. cut z (text ++ b'\n' ∷ rest)) n
      ∙ cut-strip_cr text (b'\n' ∷ rest))

feed_lf :
    (b : LineBuffer) (rest : Bytes)
    → b.failed ≡ false
    → b.ready ≡ false
    → feed b (b'\n' ∷ rest) ≡ (complete (store b b'\n'), ok 1)
unfolding feed feed_loop
feed_lf b rest f r = simp (f, r)

ok-injective : {a b : ℕ} → ◌≡◌ {A = Result ProtocolError ℕ} (ok a) (ok b) → a ≡ b
ok-injective e = cc

and_feed-open :
    (r : Fed) (n : ℕ) (more : Bytes)
    → r.1 ≡ ok n
    → r.0.ready ≡ false
    → and_feed r more ≡ add_count n (feed r.0 more)
and_feed-open (b, ok m) n more e h = simp h (ap (λ z. add_count z (feed b more)) (ok-injective e))
and_feed-open (b, err x) n more e h = cc

eof_ready : (b : LineBuffer) → b.failed ≡ false → b.ready ≡ true → finish_eof b ≡ ok tt
unfolding finish_eof
eof_ready b f r = ground arith

-- A line that fits, with its line feed, completes a buffer that holds its beginning: the bytes up to
-- the line feed are consumed, the line is the text without a carriage return at its end, and the end
-- of the input is then at a line boundary.
pub feed-line :
    (b : LineBuffer) (text body rest : Bytes)
    → Holds b text
    → all not_feed body ≡ true
    → length text + length body < max_line_bytes
    → ((feed b (body ++ b'\n' ∷ rest)).1 ≡ ok (length body + 1))
      × (line (feed b (body ++ b'\n' ∷ rest)).0 ≡ some (strip_cr (text ++ body)))
      × (finish_eof (feed b (body ++ b'\n' ∷ rest)).0 ≡ ok tt)
feed-line b text body rest v c room =
    let (w, n) = feed_part body b text 0 c room v in
    let b' = (feed_loop b body 0).0 in
    let whole : feed b (body ++ b'\n' ∷ rest) ≡ (complete (store b' b'\n'), ok (length body + 1)) =
      feed-append b body (b'\n' ∷ rest)
      ∙ ap (λ z. and_feed z (b'\n' ∷ rest)) (feed-feed_loop b body v.failed v.ready)
      ∙ and_feed-open (feed_loop b body 0) (length body) (b'\n' ∷ rest)
          (n ∙ ap ok (zero-add (length body))) w.ready
      ∙ ap (add_count (length body)) (feed_lf b' rest w.failed w.ready) in
    (
      ap (λ z. z.1) whole,
      ap (λ z. line z.0) whole
          ∙ line-complete b' (text ++ body) (omega (arith, length-append text body)) w,
      ap (λ z. finish_eof z.0) whole ∙ eof_ready (complete (store b' b'\n')) w.failed refl,
    )

-- A line that does not fit is refused as soon as the storage is full; the storage is wiped, and the
-- buffer refuses all input until it is cleared.
abbrev pub refused : LineBuffer
refused = record { storage = zeros; len = 0; ready = false; content_len = 0; failed = true }

wiped : (b : LineBuffer) → length b.storage ≡ max_line_bytes → overflow b ≡ refused
unfolding clear zeros
wiped b h =
    ap
      (λ z. record {
        storage = replicate z 0;
        len = 0;
        ready = false;
        content_len = 0;
        failed = true;
      })
      h

full :
    (b : LineBuffer) (byte : ℕ) (input : Bytes) (i : ℕ)
    → not_feed byte ≡ true
    → (b.len + 1 == max_line_bytes) ≡ true
    → feed_loop b (byte ∷ input) i ≡ (overflow (store b byte), err line_too_long)
unfolding feed_loop
full b byte input i p t = ground arith

length-store :
    (b : LineBuffer) (text : Bytes) (byte : ℕ)
    → Holds b text
    → length text < max_line_bytes
    → length (store b byte).storage ≡ max_line_bytes
length-store b text byte v h =
    length-set b.storage b.len byte
    ∙ ap length v.storage
    ∙ omega (
      arith,
      length-append text (drop (length text) zeros),
      length-drop (length text) zeros,
      length-zeros,
    )

overflow_loop :
    (input : Bytes) (b : LineBuffer) (text : Bytes) (i : ℕ)
    → all not_feed input ≡ true
    → length text < max_line_bytes
    → max_line_bytes ≤ length text + length input
    → Holds b text
    → feed_loop b input i ≡ (refused, err line_too_long)
overflow_loop [] b text i c room long v = absurd (omega arith)
overflow_loop (byte ∷ input) b text i c room long v =
    let (p, q) = &&-true (not_feed byte) _ c in
    elim (Bool-cases (b.len + 1 == max_line_bytes)) [
      | inl t ↦ rw (full b byte input i p t) (
          ap (λ z. (z, err line_too_long)) (wiped (store b byte) (length-store b text byte v room)))
      | inr f ↦
          let more = ==→ne (b.len + 1) max_line_bytes f in
          rw (feed_on b byte input i p more) (
            overflow_loop input (store b byte) (text ++ byte ∷ []) (i + 1) q
              (omega (arith, length-snoc text byte, v.len)) (omega (arith, length-snoc text byte))
              (store-Holds b text byte room v))
    ]

pub clear-new : (b : LineBuffer) → length b.storage ≡ max_line_bytes → clear b ≡ new
unfolding clear new zeros
clear-new b h =
    ap
      (λ z. record {
        storage = replicate z 0;
        len = 0;
        ready = false;
        content_len = 0;
        failed = false;
      })
      h

-- A line without a line feed in its first thousand bytes, counted with those that the buffer holds,
-- is refused: the storage is wiped whole, and the buffer refuses all further input with the same
-- error until `clear`, which makes it a new one.
pub feed_overflow :
    (b : LineBuffer) (text body rest more : Bytes)
    → Holds b text
    → length text < max_line_bytes
    → all not_feed body ≡ true
    → max_line_bytes ≤ length text + length body
    → (feed b (body ++ rest) ≡ (refused, err line_too_long))
      × (feed refused more ≡ (refused, err line_too_long))
      × (finish_eof refused ≡ err line_too_long)
      × (clear refused ≡ new)
unfolding feed finish_eof
feed_overflow b text body rest more v room c long = (
  feed-append b body rest
      ∙ ap (λ z. and_feed z rest)
          (feed-feed_loop b body v.failed v.ready ∙ overflow_loop body b text 0 c room long v),
  refl,
  refl,
  clear-new refused length-zeros,
)
