-- ===== src/Protocol/Frame/Chunks.antt =====
-- crates/assuan-protocol/src/frame.rs: one input cut into reads.
use native.Mathlib.Nat.{add_assoc, add-zero}
use assuan_library_rs.Prelude.{
  ℕ, ◌+◌, ◌≡◌, refl, false, inl, inr, [], ◌∷◌, ◌++◌, Bytes, ◌==◌, if◌then◌else◌, ok, err,
  Bool-cases,
}
use assuan_library_rs.Protocol.Encode.{max_line_bytes}
use assuan_library_rs.Protocol.Frame.{LineBuffer, Fed, store, feed_loop, feed}

-- A second read behind a first one, as the caller makes it: only where the first read was consumed
-- whole and no line is ready; the counts add up.
abbrev pub add_count : ℕ → Fed → Fed
add_count n (b, ok m) = (b, ok (n + m))
add_count n (b, err e) = (b, err e)

abbrev pub and_feed : Fed → Bytes → Fed
and_feed (b, err e) more = (b, err e)
and_feed (b, ok n) more = if b.ready then (b, ok n) else add_count n (feed b more)

feed_loop-add :
    (input : Bytes) (b : LineBuffer) (n m : ℕ)
    → feed_loop b input (n + m) ≡ add_count n (feed_loop b input m)
unfolding feed_loop
feed_loop-add [] b n m = refl
feed_loop-add (byte ∷ input) b n m =
    let ih = feed_loop-add input (store b byte) n (m + 1) in
    elim (Bool-cases (byte == b'\n')) [
      | inl t ↦ rw (t, add_assoc)
      | inr f ↦ elim (Bool-cases (b.len + 1 == max_line_bytes)) [
        | inl t ↦ rw (f, t)
        | inr g ↦ rw (f, g, add_assoc) ih
      ]
    ]

pub feed-feed_loop :
    (b : LineBuffer) (xs : Bytes)
    → b.failed ≡ false
    → b.ready ≡ false
    → feed b xs ≡ feed_loop b xs 0
unfolding feed
feed-feed_loop b xs f r = simp (f, r)

feed_loop-append :
    (xs ys : Bytes) (b : LineBuffer) (i : ℕ)
    → b.ready ≡ false
    → b.failed ≡ false
    → feed_loop b (xs ++ ys) i ≡ and_feed (feed_loop b xs i) ys
unfolding feed_loop
feed_loop-append [] ys b i r f =
    simp (r, feed-feed_loop b ys f r) (rw add-zero at (feed_loop-add ys b i 0))
feed_loop-append (byte ∷ xs) ys b i r f =
    let ih = feed_loop-append xs ys (store b byte) (i + 1) r f in
    elim (Bool-cases (byte == b'\n')) [
      | inl t ↦ rw t
      | inr g ↦ elim (Bool-cases (b.len + 1 == max_line_bytes)) [
        | inl t ↦ rw (g, t)
        | inr h ↦ rw (g, h) ih
      ]
    ]

-- Feeding two pieces of input at once does the same to the buffer, and consumes the same bytes with
-- the same verdict, as feeding the first piece and then, if that was consumed whole with no line
-- ready and no failure, the second.
pub feed-append : (b : LineBuffer) (xs ys : Bytes) → feed b (xs ++ ys) ≡ and_feed (feed b xs) ys
feed-append b xs ys = elim (Bool-cases b.failed) [
  | inl f ↦ unfold feed in simp f
  | inr f ↦ elim (Bool-cases b.ready) [
    | inl r ↦ unfold feed in simp (f, r)
    | inr r ↦
        rw (feed-feed_loop b (xs ++ ys) f r, feed-feed_loop b xs f r)
          (feed_loop-append xs ys b 0 r f)
  ]
]
