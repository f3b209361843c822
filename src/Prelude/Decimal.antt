-- ===== src/Prelude/Decimal.antt =====
-- The digits that the loop of the encoders writes, and the value that decimal digits spell.
use Prim.Native.Nat.{ℕ, zero, suc, ◌+◌, ◌-◌, ◌*◌, ◌/◌, ◌%◌, ◌^◌, ◌≤◌, ◌<◌}
use mathlib.Core.Path.{◌≡◌, refl, ◌∙◌}
use mathlib.Core.Bool.{Bool, true, false, ◌&&◌}
use mathlib.Core.Logic.{inl, inr}
use mathlib.Core.List.{[], ◌∷◌}
use native.Mathlib.Omega.{arith}
use native.Mathlib.Nat.{pow-suc}
use assuan_library_rs.Prelude.Tests.{
  ◌==◌, if◌then◌else◌, Bool-cases, ==→eq, eq→==, ==→ne, ne→==, leb,
}
use assuan_library_rs.Prelude.Lists.{length, all, is_empty, get_or}
use assuan_library_rs.Prelude.Text.{Bytes}

-- The loop `{ start -= 1; digits[start] = b'0' + value % 10; value /= 10; if value == 0 { break } }`,
-- with `digits[start..]` as the list behind `start`; a round for each place of the array.
unfoldable pub decimal_loop : ℕ → ℕ → Bytes → Bytes
decimal_loop zero value digits = digits
decimal_loop (suc fuel) value digits =
    let more = decimal_loop fuel (value / 10) ((b'0' + value % 10) ∷ digits) in
    if value / 10 == 0 then (b'0' + value % 10) ∷ digits else more

-- A reader of decimal digits, from the left, that undoes one round undoes the loop.
pub decimal_loop-read {ℓ} :
    {R : Type ℓ} (read : Bytes → ℕ → R) (max : ℕ)
    → ((n : ℕ) (digits : Bytes)
        → n ≤ max
        → read ((b'0' + n % 10) ∷ digits) (n / 10) ≡ read digits n)
    → (fuel n : ℕ) (digits : Bytes) → n < 10 ^ suc fuel
    → n ≤ max
    → read (decimal_loop (suc fuel) n digits) 0 ≡ read digits n
unfolding decimal_loop
decimal_loop-read read max step zero n digits h m =
    let z : n / 10 ≡ 0 = omega arith in rw (eq→== _ _ z) (rw z at (step n digits m))
decimal_loop-read read max step (suc fuel) n digits h m = elim (Bool-cases (n / 10 == 0)) [
  | inl z ↦ rw z (rw (==→eq _ _ z) at (step n digits m))
  | inr s ↦ rw s (
      decimal_loop-read read max step fuel (n / 10) ((b'0' + n % 10) ∷ digits)
        (omega (arith, pow-suc 10 (suc fuel))) (omega arith)
      ∙ step n digits m)
]

-- The loop writes one place for each round at most, at least one, and only digits.
pub length-decimal_loop :
    (fuel n : ℕ) (digits : Bytes) → length (decimal_loop fuel n digits) ≤ fuel + length digits
unfolding decimal_loop
length-decimal_loop zero n digits = omega arith
length-decimal_loop (suc fuel) n digits =
    ground (arith, length-decimal_loop fuel (n / 10) ((b'0' + n % 10) ∷ digits))

abbrev pub is_digit : ℕ → Bool
is_digit c = leb b'0' c && leb c b'9'

pub decimal_loop-digits :
    (fuel n : ℕ) (digits : Bytes)
    → all is_digit digits ≡ true
    → all is_digit (decimal_loop fuel n digits) ≡ true
unfolding decimal_loop
decimal_loop-digits zero n digits h = h
decimal_loop-digits (suc fuel) n digits h =
    ground (arith, decimal_loop-digits fuel (n / 10) ((b'0' + n % 10) ∷ digits))

decimal_loop_kept :
    (fuel n d : ℕ) (digits : Bytes) → is_empty (decimal_loop fuel n (d ∷ digits)) ≡ false
unfolding decimal_loop
decimal_loop_kept zero n d digits = refl
decimal_loop_kept (suc fuel) n d digits =
    ground (arith, decimal_loop_kept fuel (n / 10) (b'0' + n % 10) (d ∷ digits))

pub decimal_loop-not_empty :
    (fuel n : ℕ) (digits : Bytes) → is_empty (decimal_loop (suc fuel) n digits) ≡ false
unfolding decimal_loop
decimal_loop-not_empty fuel n digits =
    ground (arith, decimal_loop_kept fuel (n / 10) (b'0' + n % 10) digits)

abbrev pub value_of : Bytes → ℕ → ℕ
value_of [] value = value
value_of (digit ∷ digits) value = value_of digits (value * 10 + (digit - b'0'))

pub le-value_of : (digits : Bytes) (value : ℕ) → value ≤ value_of digits value
le-value_of [] value = omega arith
le-value_of (digit ∷ digits) value = omega (arith, le-value_of digits (value * 10 + (digit - b'0')))

value_of_step :
    (n : ℕ) (digits : Bytes) → value_of ((b'0' + n % 10) ∷ digits) (n / 10) ≡ value_of digits n
value_of_step n digits = let e : n / 10 * 10 + (b'0' + n % 10 - b'0') ≡ n = omega arith in rw e

-- The digits written for a number spell it.
pub value_of-decimal_loop :
    (fuel n : ℕ) → n < 10 ^ suc fuel → value_of (decimal_loop (suc fuel) n []) 0 ≡ n
value_of-decimal_loop fuel n h =
    decimal_loop-read value_of n (λ m digits _. value_of_step m digits) fuel n [] h (omega arith)

-- Zero is written as one digit, and no other number begins with a zero.
pub decimal_loop-zero : (fuel : ℕ) → decimal_loop (suc fuel) 0 [] ≡ b'0' ∷ []
unfolding decimal_loop
decimal_loop-zero fuel = refl

pub decimal_loop-head :
    (fuel n : ℕ) (digits : Bytes)
    → n < 10 ^ suc fuel
    → 0 < n
    → (get_or (decimal_loop (suc fuel) n digits) 0 0 == b'0') ≡ false
unfolding decimal_loop
decimal_loop-head zero n digits h p =
    let z : n / 10 ≡ 0 = omega arith in
    rw (eq→== (n / 10) 0 z) (ne→== (b'0' + n % 10) b'0' (omega arith))
decimal_loop-head (suc fuel) n digits h p = elim (Bool-cases (n / 10 == 0)) [
  | inl z ↦ let e = ==→eq (n / 10) 0 z in rw z (ne→== (b'0' + n % 10) b'0' (omega arith))
  | inr s ↦
      let d = ==→ne (n / 10) 0 s in
      rw s (
        decimal_loop-head fuel (n / 10) ((b'0' + n % 10) ∷ digits)
          (omega (arith, pow-suc 10 (suc fuel))) (omega arith))
]
