-- ===== src/Protocol/Escape/Validate.antt =====
-- The validation pass against the recursion on the text.
use native.Mathlib.Numerals.{add-one, towards_suc}
use assuan_library_rs.Prelude.{
  ℕ, zero, suc, ◌-◌, ◌≤◌, ◌<◌, ◌≡◌, refl, ap, ◌||◌, true, false, inl, inr, Option, none, some, [],
  ◌∷◌, Bytes, length, drop, ◌==◌, if◌then◌else◌, arith, Result, ok, err, is_none, Bool-cases,
  drop-cons, drop-nil, length-drop, lt→ltb, le→ltb,
}
use assuan_library_rs.Protocol.Error.{ProtocolError, invalid_escape}
use assuan_library_rs.Protocol.Escape.{hex, validate_pass}
use assuan_library_rs.Protocol.Escape.Unescape.{unescape, pair, cons?}

abbrev pub verdict : Option Bytes → Result ProtocolError (Unit {0})
verdict none = err invalid_escape
verdict (some out) = ok tt

-- One round on an ordinary byte, on a whole escape and on one that is cut off.
module _ (fuel : ℕ) (bytes : Bytes) (read c : ℕ) where
  validate_plain :
      {r : Bytes}
      → drop read bytes ≡ c ∷ r
      → (c == b'%') ≡ false
      → validate_pass (suc fuel) bytes read ≡ validate_pass fuel bytes (suc read)
  unfolding validate_pass
  validate_plain e p =
      let (g, _, l) = drop-cons read bytes 0 e in simp (g, p, lt→ltb _ _ l, add-one)

  validate_escape :
      (h k : ℕ) {r : Bytes}
      → drop read bytes ≡ c ∷ h ∷ k ∷ r
      → (c == b'%') ≡ true
      → validate_pass (suc fuel) bytes read ≡ (
          if is_none (hex h) || is_none (hex k)
          then err invalid_escape
          else validate_pass fuel bytes (suc (suc (suc read))))
  unfolding validate_pass
  validate_escape h k e p =
      let (g0, e1, l0) = drop-cons read bytes 0 e in
      let (g1, e2, l1) = drop-cons (suc read) bytes 0 e1 in
      let (g2, _, l2) = drop-cons (suc (suc read)) bytes 0 e2 in
      simp (towards_suc, g0, g1, g2, p, lt→ltb _ _ l0, le→ltb (length bytes - read) 3 (omega arith))

  validate_short :
      (r : Bytes)
      → drop read bytes ≡ c ∷ r
      → length r < 2
      → (c == b'%') ≡ true
      → validate_pass (suc fuel) bytes read ≡ err invalid_escape
  unfolding validate_pass
  validate_short r e s p =
      let (g, _, l) = drop-cons read bytes 0 e in
      let n = ap length e in
      simp
        (g, p, lt→ltb _ _ l, lt→ltb (length bytes - read) 3 (omega (arith, length-drop read bytes)))

verdict-cons? : (c : ℕ) (o : Option Bytes) → verdict (cons? (some c) o) ≡ verdict o
verdict-cons? c none = refl
verdict-cons? c (some x) = refl

verdict-pair :
    (a b : Option ℕ) (o : Option Bytes)
    → (if is_none a || is_none b then err invalid_escape else verdict o)
      ≡ verdict (cons? (pair a b) o)
verdict-pair none b o = refl
verdict-pair (some a) none o = refl
verdict-pair (some a) (some b) none = refl
verdict-pair (some a) (some b) (some o) = refl

pub drop_three :
    (bytes : Bytes) (read : ℕ) {c x y : ℕ} {r : Bytes}
    → drop read bytes ≡ c ∷ x ∷ y ∷ r
    → drop (suc (suc (suc read))) bytes ≡ r
drop_three bytes read e =
    let e1 = (drop-cons read bytes 0 e).1 in
    let e2 = (drop-cons (suc read) bytes 0 e1).1 in (drop-cons (suc (suc read)) bytes 0 e2).1

pub validate_pass_lem :
    (fuel : ℕ) (bytes rest : Bytes) (read : ℕ)
    → drop read bytes ≡ rest
    → length rest ≤ fuel
    → validate_pass fuel bytes read ≡ verdict (unescape rest)
unfolding unescape
validate_pass_lem zero bytes [] read e h = unfold validate_pass in refl
validate_pass_lem zero bytes (c ∷ r) read e h = absurd (omega arith)
validate_pass_lem (suc fuel) bytes [] read e h =
    unfold validate_pass in rw (le→ltb _ _ (drop-nil read bytes e))
validate_pass_lem (suc fuel) bytes (c ∷ []) read e h = elim (Bool-cases (c == b'%')) [
  | inl p ↦ rw (validate_short fuel bytes read c [] e (omega arith) p, p)
  | inr p ↦
      rw (validate_plain fuel bytes read c e p, p)
        (validate_pass_lem fuel bytes [] (suc read) (drop-cons read bytes 0 e).1 (omega arith))
]
validate_pass_lem (suc fuel) bytes (c ∷ x ∷ []) read e h = elim (Bool-cases (c == b'%')) [
  | inl p ↦ rw (validate_short fuel bytes read c (x ∷ []) e (omega arith) p, p)
  | inr p ↦
      let ih =
        validate_pass_lem fuel bytes (x ∷ []) (suc read) (drop-cons read bytes 0 e).1
          (omega arith) in
      rw (validate_plain fuel bytes read c e p, p, verdict-cons?) ih
]
validate_pass_lem (suc fuel) bytes (c ∷ x ∷ y ∷ r) read e h = elim (Bool-cases (c == b'%')) [
  | inl p ↦
      let ih =
        validate_pass_lem fuel bytes r (suc (suc (suc read))) (drop_three bytes read e)
          (omega arith) in
      rw (validate_escape fuel bytes read c x y e p, p, ih)
        (verdict-pair (hex x) (hex y) (unescape r))
  | inr p ↦
      let ih =
        validate_pass_lem fuel bytes (x ∷ y ∷ r) (suc read) (drop-cons read bytes 0 e).1
          (omega arith) in
      rw (validate_plain fuel bytes read c e p, p, verdict-cons?) ih
]
