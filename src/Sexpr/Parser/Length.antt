-- ===== src/Sexpr/Parser/Length.antt =====
-- The parser of an atom on the canonical text of one.
use native.Mathlib.Nat.{add-zero}
use native.Mathlib.Numerals.{add-one}
use assuan_library_rs.Prelude.{
  ℕ, zero, suc, ◌+◌, ◌-◌, ◌*◌, ◌≤◌, ◌<◌, ◌^◌, ◌≡◌, refl, sym, ap, ◌∙◌, ◌⊎◌, true, false, ◌&&◌, inl,
  inr, some, [], ◌∷◌, ◌++◌, append_assoc, Bytes, length, get_elem?, get_or, drop, take-append, all,
  ltb, ◌==◌, is_digit, ok, usize_max, arith, &&-true, &&-false_right, drop-cons, length-append,
  length-drop, le→ltb, value_of, le-value_of, value_of-decimal_loop, decimal_loop,
  decimal_loop-zero, decimal_loop-head, decimal_loop-digits,
}
use assuan_library_rs.Sexpr.Limits.{ParseLimits}
use assuan_library_rs.Sexpr.Parser.{digits_loop, colon_at, parse_atom}

-- The byte at which the rest of the input begins.
pub get_elem?-drop :
    (i : ℕ) (xs : Bytes) {x : ℕ} {r : Bytes} → drop i xs ≡ x ∷ r → get_elem? xs i ≡ some x
get_elem?-drop zero [] e = cc
get_elem?-drop zero (x ∷ xs) e = cc
get_elem?-drop (suc i) [] e = cc
get_elem?-drop (suc i) (x ∷ xs) e = get_elem?-drop i xs e

pub drop-more :
    (i : ℕ) (xs ys rest : Bytes) → drop i xs ≡ ys ++ rest → drop (i + length ys) xs ≡ rest
drop-more i xs [] rest e = rw add-zero e
drop-more i xs (y ∷ ys) rest e =
    let n : i + suc (length ys) ≡ suc i + length ys = omega arith in
    rw n (drop-more (suc i) xs ys rest (drop-cons i xs 0 e).1)

module _ (input : Bytes) (start : ℕ) where
  -- One digit that keeps the value in range.
  digits_step :
      (fuel position value byte : ℕ) (r : Bytes)
      → drop position input ≡ byte ∷ r
      → is_digit byte ≡ true
      → (ltb start position && (get_or input start 0 == b'0')) ≡ false
      → value * 10 + (byte - b'0') ≤ usize_max
      → digits_loop (suc fuel) input start position value
        ≡ digits_loop fuel input start (suc position) (value * 10 + (byte - b'0'))
  unfolding digits_loop
  digits_step fuel position value byte r e d z m =
      rw (get_elem?-drop position input e, digits_loop)
        (simp (
          d,
          z,
          le→ltb usize_max (value * 10) (omega arith),
          le→ltb usize_max (value * 10 + (byte - b'0')) m,
          add-one,
        ))

  digits_stop :
      (fuel position value : ℕ) (r : Bytes)
      → drop position input ≡ b':' ∷ r
      → digits_loop fuel input start position value ≡ ok (position, value)
  unfolding digits_loop
  digits_stop zero position value r e = refl
  digits_stop (suc fuel) position value r e = rw (get_elem?-drop position input e, digits_loop)

  digits_rest :
      (digits : Bytes) (fuel position value : ℕ) (r : Bytes)
      → drop position input ≡ digits ++ b':' ∷ r
      → all is_digit digits ≡ true
      → (get_or input start 0 == b'0') ≡ false
      → value_of digits value ≤ usize_max
      → length digits ≤ fuel
      → digits_loop fuel input start position value
        ≡ ok (position + length digits, value_of digits value)
  digits_rest [] fuel position value r e d z m f = rw add-zero (digits_stop fuel position value r e)
  digits_rest (c ∷ digits) zero position value r e d z m f = absurd (omega arith)
  digits_rest (c ∷ digits) (suc fuel) position value r e d z m f =
      let (p, q) = &&-true (is_digit c) _ d in
      let next = value * 10 + (c - b'0') in
      let n : suc position + length digits ≡ position + suc (length digits) = omega arith in
      digits_step fuel position value c (digits ++ b':' ∷ r) e p
        (&&-false_right (ltb start position) z) (omega (arith, le-value_of digits next))
      ∙ digits_rest digits fuel (suc position) next r (drop-cons position input 0 e).1 q z m
          (omega arith)
      ∙ ap (λ k. ok (k, value_of digits next)) n

  first_digit : (byte : ℕ) → (ltb start start && (get_or input start 0 == b'0')) ≡ false
  first_digit byte = rw (le→ltb start start (omega arith))

  -- The digits of a length, from their first byte: one digit, or digits without a leading zero.
  digits_all :
      (digits : Bytes) (fuel : ℕ) (r : Bytes)
      → drop start input ≡ digits ++ b':' ∷ r
      → all is_digit digits ≡ true
      → (length digits ≤ 1) ⊎ ((get_or digits 0 0 == b'0') ≡ false)
      → value_of digits 0 ≤ usize_max
      → length digits ≤ fuel
      → digits_loop fuel input start start 0 ≡ ok (start + length digits, value_of digits 0)
  digits_all [] fuel r e d c m f = rw add-zero (digits_stop fuel start 0 r e)
  digits_all (x ∷ digits) zero r e d c m f = absurd (omega arith)
  digits_all (x ∷ []) (suc fuel) r e d c m f =
      let (p, q) = &&-true (is_digit x) true d in
      digits_step fuel start 0 x (b':' ∷ r) e p (first_digit x) m
      ∙ digits_stop fuel (suc start) (0 * 10 + (x - b'0')) r (drop-cons start input 0 e).1
      ∙ ap (λ k. ok (k, 0 * 10 + (x - b'0'))) (sym (add-one start))
  digits_all (x ∷ y ∷ digits) (suc fuel) r e d c m f =
      let (p, q) = &&-true (is_digit x) (all is_digit (y ∷ digits)) d in
      let value = 0 * 10 + (x - b'0') in
      let (g, e', _) = drop-cons start input 0 e in
      let head : (get_or input start 0 == b'0') ≡ false = elim c [
        | inl short ↦ absurd (omega arith)
        | inr z ↦ rw g z
      ] in
      let n : suc start + suc (length digits) ≡ start + suc (suc (length digits)) = omega arith in
      digits_step fuel start 0 x (y ∷ digits ++ b':' ∷ r) e p (first_digit x)
        (omega (arith, le-value_of (y ∷ digits) value))
      ∙ digits_rest (y ∷ digits) fuel (suc start) value r e' q head m (omega arith)
      ∙ ap (λ k. ok (k, value_of (y ∷ digits) value)) n

usize-lt-pow : (n : ℕ) → n ≤ usize_max → n < 10 ^ 40
usize-lt-pow n h = omega arith

canonical_head :
    (n : ℕ)
    → n ≤ usize_max
    → (length (decimal_loop 40 n []) ≤ 1) ⊎ ((get_or (decimal_loop 40 n []) 0 0 == b'0') ≡ false)
canonical_head zero m = inl (rw (decimal_loop-zero 39) (omega arith))
canonical_head (suc n) m =
    inr (decimal_loop-head 39 (suc n) [] (usize-lt-pow (suc n) m) (omega arith))

colon_at_lem :
    (input : Bytes) (p : ℕ) (r : Bytes) → drop p input ≡ b':' ∷ r → colon_at input p ≡ ok (p + 1)
colon_at_lem input p r e = rw (get_elem?-drop p input e, colon_at)

-- The payload behind a length that was read.
payload_read :
    (input : Bytes) (start p : ℕ) (limits : ParseLimits) (bytes rest : Bytes)
    → digits_loop (length input) input start start 0 ≡ ok (p, length bytes)
    → drop p input ≡ b':' ∷ (bytes ++ rest)
    → length bytes ≤ limits.atom_bytes
    → length input ≤ usize_max
    → parse_atom input start limits ≡ ok (bytes, p + suc (length bytes))
unfolding parse_atom
payload_read input start p limits bytes rest d e fits word =
    let room : p + 1 + length bytes ≤ length input =
      omega (arith, ap length e, length-append bytes rest, length-drop p input) in
    let n : p + 1 + length bytes - (p + 1) ≡ length bytes = omega arith in
    let tail : drop (p + 1) input ≡ bytes ++ rest = rw add-one ((drop-cons p input 0 e).1) in
    let end : p + 1 + length bytes ≡ p + suc (length bytes) = omega arith in
    rw (
      d,
      colon_at_lem input p (bytes ++ rest) e,
      le→ltb limits.atom_bytes (length bytes) fits,
      le→ltb usize_max (p + 1 + length bytes) (omega arith),
      le→ltb (length input) (p + 1 + length bytes) room,
      n,
      tail,
      take-append bytes rest,
      end,
    )

-- The parser of an atom reads the canonical text of one off the front of what is left.
pub parse_atom-print :
    (input : Bytes) (start : ℕ) (limits : ParseLimits) (bytes rest : Bytes)
    → drop start input ≡ (decimal_loop 40 (length bytes) [] ++ b':' ∷ bytes) ++ rest
    → length bytes ≤ limits.atom_bytes
    → length input ≤ usize_max
    → parse_atom input start limits
      ≡ ok (bytes, start + length (decimal_loop 40 (length bytes) [] ++ b':' ∷ bytes))
parse_atom-print input start limits bytes rest e fits word =
    let digits = decimal_loop 40 (length bytes) [] in
    let e' : drop start input ≡ digits ++ b':' ∷ (bytes ++ rest) =
      e ∙ append_assoc digits (b':' ∷ bytes) rest in
    let total : length digits + suc (length bytes + length rest) ≡ length input - start = omega (
      arith,
      ap length e',
      length-append digits (b':' ∷ (bytes ++ rest)),
      length-append bytes rest,
      length-drop start input,
    ) in
    let m : length bytes ≤ usize_max = omega arith in
    let same = value_of-decimal_loop 39 (length bytes) (usize-lt-pow (length bytes) m) in
    let read =
      digits_all input start digits (length input) (bytes ++ rest) e'
        (decimal_loop-digits 40 (length bytes) [] refl) (canonical_head (length bytes) m)
        (rw same m) (omega arith) in
    let p = start + length digits in
    let end : p + suc (length bytes) ≡ start + length (digits ++ b':' ∷ bytes) =
      omega (arith, length-append digits (b':' ∷ bytes)) in
    payload_read input start p limits bytes rest (read ∙ ap (λ k. ok (p, k)) same)
      (drop-more start input digits (b':' ∷ (bytes ++ rest)) e') fits word
    ∙ ap (λ k. ok (bytes, k)) end
