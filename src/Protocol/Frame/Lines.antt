-- ===== src/Protocol/Frame/Lines.antt =====
-- What a buffer holds after a whole line, a part of one, or too long a line.
use native.Mathlib.Nat.{add-zero}
use assuan_library_rs.Prelude.{
  ℕ, ◌+◌, ◌<◌, ◌≡◌, ◌≢◌, refl, sym, ap, ◌∙◌, Bool, true, false, not, [], ◌∷◌, ◌++◌, append-nil,
  append_assoc, Bytes, length, set, drop, all, ◌==◌, arith, ok, &&-true, set-append-drop,
  length-snoc, length-replicate,
}
use assuan_library_rs.Protocol.Encode.{max_line_bytes}
use assuan_library_rs.Protocol.Encode.Write.{over}
use assuan_library_rs.Protocol.Frame.{LineBuffer, zeros, new, store, feed_loop}

-- A buffer that has stored `text` and waits for the rest of its line.
pub record Holds (b : LineBuffer) (text : Bytes) : Type 0 where
  pub storage : b.storage ≡ over text zeros
  pub len : b.len ≡ length text
  pub ready : b.ready ≡ false
  pub failed : b.failed ≡ false

pub new-Holds : Holds new []
unfolding new
new-Holds = record { storage = refl; len = refl; ready = refl; failed = refl }

pub length-zeros : length zeros ≡ max_line_bytes
unfolding zeros
length-zeros = length-replicate {A = ℕ} max_line_bytes 0

pub store-Holds :
    (b : LineBuffer) (text : Bytes) (byte : ℕ)
    → length text < max_line_bytes
    → Holds b text
    → Holds (store b byte) (text ++ byte ∷ [])
store-Holds b text byte h v = record {
  storage =
      ap (λ z. set z b.len byte) v.storage
      ∙ ap (λ z. set (over text zeros) z byte) v.len
      ∙ set-append-drop text zeros byte (omega (arith, length-zeros))
      ∙ ap (λ z. (text ++ byte ∷ []) ++ drop z zeros) (sym (length-snoc text byte));
  len = omega (arith, v.len, length-snoc text byte);
  ready = v.ready;
  failed = v.failed;
}

abbrev pub not_feed : ℕ → Bool
not_feed byte = not (byte == b'\n')

pub feed_on :
    (b : LineBuffer) (byte : ℕ) (input : Bytes) (i : ℕ)
    → not_feed byte ≡ true
    → b.len + 1 ≢ max_line_bytes
    → feed_loop b (byte ∷ input) i ≡ feed_loop (store b byte) input (i + 1)
unfolding feed_loop
feed_on b byte input i p room = ground arith

-- A part of a line that fits is stored, and consumed whole.
pub feed_part :
    (input : Bytes) (b : LineBuffer) (text : Bytes) (i : ℕ)
    → all not_feed input ≡ true
    → length text + length input < max_line_bytes
    → Holds b text
    → Holds (feed_loop b input i).0 (text ++ input)
      × ((feed_loop b input i).1 ≡ ok (i + length input))
unfolding feed_loop
feed_part [] b text i c h v = (rw append-nil v, rw add-zero)
feed_part (byte ∷ input) b text i c h v =
    let (p, q) = &&-true (not_feed byte) _ c in
    let room : b.len + 1 ≢ max_line_bytes = λ e. absurd (omega (arith, v.len)) in
    let stored = store-Holds b text byte (omega arith) v in
    let (w, n) =
      feed_part input (store b byte) (text ++ byte ∷ []) (i + 1) q
        (omega (arith, length-snoc text byte)) stored in
    rw (feed_on b byte input i p room) (rw append_assoc at w, n ∙ ap ok (omega arith))
