-- ===== src/Protocol/Utf8.antt =====
-- `core::str::from_utf8`, which command.rs and message.rs call on names: the bytes of a string
-- slice are well-formed UTF-8 (one to four bytes for a character, no overlong form, no surrogate).
use assuan_library_rs.Prelude.{
  ℕ, Bool, true, false, ◌&&◌, ◌||◌, Option, none, some, [], ◌∷◌, Bytes, leb, ltb, ◌==◌,
  if◌then◌else◌, all, ◌≡◌, refl, &&-true,
}

abbrev within : ℕ → ℕ → ℕ → Bool
within lo hi byte = leb lo byte && leb byte hi

abbrev continuation : ℕ → Bool
continuation = within 0x80 0xbf

abbrev two : ℕ → ℕ → Bool
two a b = within 0xc2 0xdf a && continuation b

abbrev three : ℕ → ℕ → ℕ → Bool
three a b c =
    (((a == 0xe0) && within 0xa0 0xbf b)
      || (within 0xe1 0xec a && continuation b)
      || ((a == 0xed) && within 0x80 0x9f b)
      || (within 0xee 0xef a && continuation b))
    && continuation c

abbrev four : ℕ → ℕ → ℕ → ℕ → Bool
four a b c d =
    (((a == 0xf0) && within 0x90 0xbf b)
      || (within 0xf1 0xf3 a && continuation b)
      || ((a == 0xf4) && within 0x80 0x8f b))
    && continuation c
    && continuation d

pub is_utf8 : Bytes → Bool
is_utf8 [] = true
is_utf8 (a ∷ []) = ltb a 0x80
is_utf8 (a ∷ b ∷ []) = let rest = is_utf8 (b ∷ []) in if ltb a 0x80 then rest else two a b
is_utf8 (a ∷ b ∷ c ∷ []) =
    let one = is_utf8 (b ∷ c ∷ []) in
    let more = is_utf8 (c ∷ []) in if ltb a 0x80 then one else if two a b then more else three a b c
is_utf8 (a ∷ b ∷ c ∷ d ∷ r) =
    let one = is_utf8 (b ∷ c ∷ d ∷ r) in
    let after_two = is_utf8 (c ∷ d ∷ r) in
    let after_three = is_utf8 (d ∷ r) in
    let after_four = is_utf8 r in
    if ltb a 0x80
    then one
    else if two a b
    then after_two
    else if three a b c
    then after_three
    else if four a b c d
    then after_four
    else false

unfoldable pub from_utf8 : Bytes → Option Bytes
unfolding is_utf8
from_utf8 bytes = if is_utf8 bytes then some bytes else none

pub is_utf8-ascii : (bytes : Bytes) → all (λ b. ltb b 0x80) bytes ≡ true → is_utf8 bytes ≡ true
unfolding is_utf8
is_utf8-ascii [] h = refl
is_utf8-ascii (a ∷ []) h = (&&-true _ _ h).0
is_utf8-ascii (a ∷ b ∷ []) h =
    let (p, q) = &&-true (ltb a 0x80) _ h in rw p (is_utf8-ascii (b ∷ []) q)
is_utf8-ascii (a ∷ b ∷ c ∷ []) h =
    let (p, q) = &&-true (ltb a 0x80) _ h in rw p (is_utf8-ascii (b ∷ c ∷ []) q)
is_utf8-ascii (a ∷ b ∷ c ∷ d ∷ r) h =
    let (p, q) = &&-true (ltb a 0x80) _ h in rw p (is_utf8-ascii (b ∷ c ∷ d ∷ r) q)
