-- ===== src/Prelude/Words.antt =====
-- Machine integers: a value stays a natural number, and a checked operation tests its range.
-- `usize` is that of the 64-bit targets.
use Prim.Native.Nat.{ℕ, ◌+◌, ◌*◌}
use mathlib.Core.Option.{Option, none, some}
use assuan_library_rs.Prelude.Tests.{ltb, if◌then◌else◌}

abbrev pub u32_max : ℕ
u32_max = 4294967295

abbrev pub usize_max : ℕ
usize_max = 18446744073709551615

-- `a.checked_add(b)` and `a.checked_mul(b)` on the type whose greatest value is `max`.
abbrev pub checked_add : ℕ → ℕ → ℕ → Option ℕ
checked_add max a b = if ltb max (a + b) then none else some (a + b)

abbrev pub checked_mul : ℕ → ℕ → ℕ → Option ℕ
checked_mul max a b = if ltb max (a * b) then none else some (a * b)

-- `opt.and_then(f)`.
abbrev pub and_then : Option ℕ → (ℕ → Option ℕ) → Option ℕ
and_then none f = none
and_then (some a) f = f a
