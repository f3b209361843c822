-- ===== src/Sexpr/Writer/Digits.antt =====
-- The count of the digits of a length against the digits themselves.
use native.Mathlib.Nat.{pow-suc}
use assuan_library_rs.Prelude.{
  ℕ, zero, suc, ◌+◌, ◌/◌, ◌%◌, ◌^◌, ◌<◌, ◌≡◌, ◌≢◌, refl, inl, inr, ◌∷◌, Bytes, length, decimal_loop,
  ltb, arith, Bool-cases, eq→==, ne→==, ltb→lt, ltb→le,
}
use assuan_library_rs.Sexpr.Writer.{decimal_count}

decimal_count-suc : (fuel n c : ℕ) → decimal_count fuel n (suc c) ≡ suc (decimal_count fuel n c)
unfolding decimal_count
decimal_count-suc zero n c = refl
decimal_count-suc (suc fuel) n c = ground (arith, decimal_count-suc fuel (n / 10) (c + 1))

decimal_count_stop : (fuel n c : ℕ) → n < 10 → decimal_count fuel n c ≡ c
unfolding decimal_count
decimal_count_stop zero n c h = refl
decimal_count_stop (suc fuel) n c h = ground arith

decimal_count_more :
    (fuel n c : ℕ) → 9 < n → decimal_count (suc fuel) n c ≡ decimal_count fuel (n / 10) (c + 1)
unfolding decimal_count
decimal_count_more fuel n c h = ground arith

decimal_loop_stop :
    (fuel n : ℕ) (digits : Bytes)
    → n < 10
    → decimal_loop (suc fuel) n digits ≡ (b'0' + n % 10) ∷ digits
unfolding decimal_loop
decimal_loop_stop fuel n digits h = let z : n / 10 ≡ 0 = omega arith in rw (eq→== _ _ z) refl

decimal_loop_more :
    (fuel n : ℕ) (digits : Bytes)
    → 9 < n
    → decimal_loop (suc fuel) n digits ≡ decimal_loop fuel (n / 10) ((b'0' + n % 10) ∷ digits)
unfolding decimal_loop
decimal_loop_more fuel n digits h =
    let s : n / 10 ≢ 0 = λ e. omega arith in rw (ne→== (n / 10) 0 s) refl

-- The count of digits is the length of the digits.
pub length-decimal :
    (f g n : ℕ) (digits : Bytes)
    → n < 10 ^ suc f
    → n < 10 ^ suc g
    → length (decimal_loop (suc f) n digits) ≡ decimal_count g n 1 + length digits
length-decimal zero g n digits h k =
    rw (decimal_loop_stop zero n digits (omega arith), decimal_count_stop g n 1 (omega arith))
      (omega arith)
length-decimal (suc f) zero n digits h k =
    rw (decimal_loop_stop (suc f) n digits (omega arith), decimal_count_stop zero n 1 (omega arith))
      (omega arith)
length-decimal (suc f) (suc g) n digits h k = elim (Bool-cases (ltb n 10)) [
  | inl t ↦
      let low = ltb→lt n 10 t in
      rw (decimal_loop_stop (suc f) n digits low, decimal_count_stop (suc g) n 1 low) (omega arith)
  | inr s ↦
      let high : 9 < n = ltb→le n 10 s in
      let rest =
        length-decimal f g (n / 10) ((b'0' + n % 10) ∷ digits) (omega (arith, pow-suc 10 (suc f)))
          (omega (arith, pow-suc 10 (suc g))) in
      rw (decimal_loop_more (suc f) n digits high, decimal_count_more g n 1 high)
        (omega (arith, rest, decimal_count-suc g (n / 10) 1))
]
