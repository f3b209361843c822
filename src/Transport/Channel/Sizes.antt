-- ===== src/Transport/Channel/Sizes.antt =====
-- The size of the storage of a channel's line.
use assuan_library_rs.Prelude.{
  ℕ, ◌+◌, ◌≡◌, refl, ◌∙◌, inl, inr, Bool, true, false, List, [], ◌∷◌, Bytes, length, length-set,
  length-replicate, ◌==◌, Bool-cases, Result, ok, err, take, arith,
}
use assuan_library_rs.Protocol.Encode.{max_line_bytes}
use assuan_library_rs.Protocol.Error.{ProtocolError}
use assuan_library_rs.Protocol.Frame
use assuan_library_rs.Protocol.Frame.{LineBuffer, store, feed_loop, feed, finish_eof}
use assuan_library_rs.Transport.Stream.{Stream, Read, got, read_failed, read_stalled}
use assuan_library_rs.Transport.Channel.{
  Channel, Outcome, fed, drain, fill, at_eof, after_drain, remaining, receive_loop,
}

pub size_clear : (b : LineBuffer) → length (Frame.clear b).storage ≡ length b.storage
unfolding Frame.clear
size_clear b = length-replicate {A = ℕ} (length b.storage) 0

size_feed_loop :
    (input : Bytes) (b : LineBuffer) (i : ℕ)
    → length (feed_loop b input i).0.storage ≡ length b.storage
unfolding feed_loop
size_feed_loop [] b i = refl
size_feed_loop (byte ∷ input) b i =
    let stored = length-set b.storage b.len byte in
    let ih = size_feed_loop input (store b byte) (i + 1) in
    elim (Bool-cases (byte == b'\n')) [
      | inl t ↦ rw t stored
      | inr f ↦ elim (Bool-cases (b.len + 1 == max_line_bytes)) [
        | inl t ↦ rw (f, t) (size_clear (store b byte) ∙ stored)
        | inr g ↦ rw (f, g) (ih ∙ stored)
      ]
    ]

size_feed : (b : LineBuffer) (input : Bytes) → length (feed b input).0.storage ≡ length b.storage
unfolding feed
size_feed b input = elim (Bool-cases b.failed) [
  | inl f ↦ ground (arith, size_feed_loop input b 0)
  | inr f ↦ ground (arith, size_feed_loop input b 0)
]

size_fed :
    (c : Channel) (r : LineBuffer × Result ProtocolError ℕ)
    → length (fed c r).0.line.storage ≡ length r.0.storage
size_fed c (b, ok n) = refl
size_fed c (b, err e) = refl

size_drain : (c : Channel) → length (drain c).0.line.storage ≡ length c.line.storage
unfolding drain
size_drain c = elim (Bool-cases (c.pending == 0)) [
  | inl t ↦ rw t refl
  | inr f ↦ rw f (
      size_fed c (feed c.line (take c.pending c.ahead)) ∙ size_feed c.line (take c.pending c.ahead))
]

size_after_drain :
    (n : ℕ) (r : Outcome Bool) (next : Channel → Outcome (Unit {0}))
    → length r.0.line.storage ≡ n
    → ((c : Channel) → length c.line.storage ≡ n → length (next c).0.line.storage ≡ n)
    → length (after_drain r next).0.line.storage ≡ n
size_after_drain n (c, ok true) next h k = h
size_after_drain n (c, ok false) next h k = k c h
size_after_drain n (c, err e) next h k = h

size_at_eof : (c : Channel) → length (at_eof c).0.line.storage ≡ length c.line.storage
size_at_eof c = ground arith

pub size_receive_loop :
    (reads : List Read) (c : Channel) (s : Stream)
    → length (receive_loop c s reads).0.line.storage ≡ length c.line.storage
unfolding receive_loop
size_receive_loop [] c s =
    size_after_drain (length c.line.storage) (drain (remaining c s [])) _
      (size_drain (remaining c s [])) (λ d h. h)
size_receive_loop (read_failed ∷ reads) c s =
    let here = remaining c s (read_failed ∷ reads) in
    size_after_drain (length c.line.storage) (drain here) _ (size_drain here) (λ d h. h)
size_receive_loop (read_stalled ∷ reads) c s =
    let here = remaining c s (read_stalled ∷ reads) in
    size_after_drain (length c.line.storage) (drain here) _ (size_drain here) (λ d h. h)
size_receive_loop (got [] ∷ reads) c s =
    let here = remaining c s (got [] ∷ reads) in
    size_after_drain (length c.line.storage) (drain here) _ (size_drain here)
      (λ d h. size_at_eof (remaining (fill d []) s reads) ∙ h)
size_receive_loop (got (byte ∷ bytes) ∷ reads) c s =
    let here = remaining c s (got (byte ∷ bytes) ∷ reads) in
    size_after_drain (length c.line.storage) (drain here) _ (size_drain here)
      (λ d h. size_receive_loop reads (fill d (byte ∷ bytes)) s ∙ h)
