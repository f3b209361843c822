-- ===== src/Protocol/Escape/InPlace.antt =====
-- The decoding pass over the buffer against the recursion on the text.
use native.Mathlib.Numerals.{add-one, towards_suc}
use assuan_library_rs.Prelude.{
  ℕ, zero, suc, ◌+◌, ◌*◌, ◌≤◌, ◌<◌, ◌≡◌, refl, sym, ap, ◌∙◌, true, false, inl, inr, Option, none,
  some, [], ◌∷◌, ◌++◌, append-nil, append_assoc, Bytes, length, set, drop, ◌==◌, arith, Result, ok,
  err, Option-cases, drop-cons, drop-nil, drop-set_lt, set-append-drop, length-drop, length-append,
  length-snoc, lt→ltb, le→ltb,
}
use assuan_library_rs.Protocol.Error.{ProtocolError, invalid_escape}
use assuan_library_rs.Protocol.Escape.{hex, decode_pass, decode_data_in_place}
use assuan_library_rs.Protocol.Escape.Unescape.{
  unescape, Unescapes, end, plain, escaped, unescape-Unescapes,
}
use assuan_library_rs.Protocol.Escape.Validate.{validate_pass_lem, drop_three}

-- One round of the decoding pass.
module _ (fuel : ℕ) (buf : Bytes) (read written c : ℕ) where
  decode_plain :
      {r : Bytes}
      → drop read buf ≡ c ∷ r
      → (c == b'%') ≡ false
      → decode_pass (suc fuel) buf read written
        ≡ decode_pass fuel (set buf written c) (suc read) (suc written)
  unfolding decode_pass
  decode_plain e p = let (g, _, l) = drop-cons read buf 0 e in simp (g, p, lt→ltb _ _ l, add-one)

  decode_escape :
      (h k a b : ℕ) {r : Bytes}
      → drop read buf ≡ c ∷ h ∷ k ∷ r
      → (c == b'%') ≡ true
      → hex h ≡ some a
      → hex k ≡ some b
      → decode_pass (suc fuel) buf read written
        ≡ decode_pass fuel (set buf written (a * 16 + b)) (suc (suc (suc read))) (suc written)
  unfolding decode_pass
  decode_escape h k a b e p ha hb =
      let (g0, e1, l0) = drop-cons read buf 0 e in
      let (g1, e2, _) = drop-cons (suc read) buf 0 e1 in
      let (g2, _, _) = drop-cons (suc (suc read)) buf 0 e2 in
      simp (towards_suc, g0, g1, g2, p, ha, hb, lt→ltb _ _ l0)

-- What the buffer holds when `out` has been written over the start of `orig`.
abbrev pub over : Bytes → Bytes → Bytes
over out orig = out ++ drop (length out) orig

-- A write behind `out`, at an index that has been read, keeps the unread part.
set-over :
    (out orig : Bytes) (v : ℕ)
    → length out < length orig
    → set (over out orig) (length out) v ≡ over (out ++ v ∷ []) orig
set-over out orig v h = rw (set-append-drop out orig v h, length-snoc)

length-over : (out orig : Bytes) → length out ≤ length orig → length (over out orig) ≡ length orig
length-over out orig h =
    omega (arith, length-append out (drop (length out) orig), length-drop (length out) orig)

abbrev finished : Bytes → Bytes → Bytes × ℕ
finished out orig = (over out orig, length out)

-- The unread part stays where it is when one more byte is written behind it.
unread :
    (out orig rest : Bytes) (read v : ℕ)
    → length out < length orig
    → length out < read
    → drop read (over out orig) ≡ rest
    → drop read (over (out ++ v ∷ []) orig) ≡ rest
unread out orig rest read v l h e =
    ap (drop read) (sym (set-over out orig v l))
    ∙ drop-set_lt read (length out) (over out orig) v h
    ∙ e

-- A round that writes `v`, and then the rounds that follow it.
advance :
    (fuel read v : ℕ) (out orig res : Bytes)
    → length out < length orig
    → decode_pass fuel (over (out ++ v ∷ []) orig) read (length (out ++ v ∷ []))
      ≡ finished ((out ++ v ∷ []) ++ res) orig
    → decode_pass fuel (set (over out orig) (length out) v) read (suc (length out))
      ≡ finished (out ++ v ∷ res) orig
advance fuel read v out orig res l ih =
    rw (set-over out orig v l, ← length-snoc out v) ih
    ∙ ap (λ z. finished z orig) (append_assoc out (v ∷ []) res)

decode_pass_lem :
    {rest res : Bytes}
    → Unescapes rest res
    → (fuel read : ℕ) (orig out : Bytes) → drop read (over out orig) ≡ rest
    → length out ≤ read
    → length out ≤ length orig
    → length rest ≤ fuel
    → decode_pass fuel (over out orig) read (length out) ≡ finished (out ++ res) orig
decode_pass_lem end zero read orig out e h l f = unfold decode_pass in rw append-nil
decode_pass_lem end (suc fuel) read orig out e h l f =
    unfold decode_pass in rw (le→ltb _ _ (drop-nil read (over out orig) e), append-nil)
decode_pass_lem (plain p d) zero read orig out e h l f = absurd (omega arith)
decode_pass_lem (plain {c} {r} {out = res} p d) (suc fuel) read orig out e h l f =
    let (_, e', w) = drop-cons read (over out orig) 0 e in
    let room : length out < length orig = omega (arith, length-over out orig l) in
    decode_plain fuel (over out orig) read (length out) c e p
    ∙ advance fuel (suc read) c out orig res room (
        decode_pass_lem d fuel (suc read) orig (out ++ c ∷ [])
          (unread out orig r (suc read) c room (omega arith) e') (omega (arith, length-snoc out c))
          (omega (arith, length-snoc out c)) (omega arith))
decode_pass_lem (escaped p a b d) zero read orig out e h l f = absurd (omega arith)
decode_pass_lem (escaped {c} {h = x} {k = y} {a = m} {b = n} {r} {out = res} p a b d) (suc fuel)
      read orig out e h l f =
    let (_, _, w) = drop-cons read (over out orig) 0 e in
    let e' = drop_three (over out orig) read e in
    let room : length out < length orig = omega (arith, length-over out orig l) in
    let v = m * 16 + n in
    let next = suc (suc (suc read)) in
    decode_escape fuel (over out orig) read (length out) c x y m n e p a b
    ∙ advance fuel next v out orig res room (
        decode_pass_lem d fuel next orig (out ++ v ∷ [])
          (unread out orig r next v room (omega arith) e') (omega (arith, length-snoc out v))
          (omega (arith, length-snoc out v)) (omega arith))

abbrev pub decoded : Bytes → Option Bytes → Result ProtocolError (Bytes × ℕ)
decoded bytes none = err invalid_escape
decoded bytes (some out) = ok (over out bytes, length out)

-- Decoding in place gives the error exactly when the text has no decoding, and otherwise leaves the
-- decoded text at the start of the buffer, returns its length, and keeps every byte behind it.
pub decode_data_in_place-unescape :
    (bytes : Bytes) → decode_data_in_place bytes ≡ decoded bytes (unescape bytes)
unfolding decode_data_in_place
decode_data_in_place-unescape bytes = elim (Option-cases (unescape bytes)) [
  | inl n ↦ rw (validate_pass_lem (length bytes) bytes bytes 0 refl (omega arith), n)
  | inr (out, s) ↦
      rw (validate_pass_lem (length bytes) bytes bytes 0 refl (omega arith), s)
        (ap ok (
          decode_pass_lem (unescape-Unescapes bytes out s) (length bytes) 0 bytes [] refl
            (omega arith) (omega arith) (omega arith)))
]
