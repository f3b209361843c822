-- ===== src/Protocol/Command/Fields.antt =====
-- The checks on lines and tokens, and the split at the first space.
use assuan_library_rs.Prelude.{
  ℕ, ◌≡◌, refl, Bool, true, false, not, ◌||◌, some, inl, inr, [], ◌∷◌, ◌++◌, Bytes, all, any,
  is_empty, get_or, ltb, ◌==◌, arith, ok, Bool-cases, &&-true, &&-intro, ||-false, not-true, ◌⊎◌,
  ap, ==→eq,
}
use assuan_library_rs.Protocol.Command.{
  is_forbidden, is_token_byte, validate_line, validate_token, split_field,
}
use assuan_library_rs.Protocol.Utf8.{from_utf8, is_utf8-ascii}

pub validate_line-eq-ok :
    (line : Bytes) → validate_line line ≡ ok tt → any is_forbidden line ≡ false
unfolding validate_line
validate_line-eq-ok line h = ground arith

pub validate_line_clean :
    (line : Bytes) → any is_forbidden line ≡ false → validate_line line ≡ ok tt
unfolding validate_line
validate_line_clean line h = rw h

-- What a valid token gives.
pub validate_token-eq-ok :
    (token : Bytes)
    → validate_token token ≡ ok tt
    → (is_empty token ≡ false)
      × ((get_or token 0 0 == b'#') ≡ false)
      × (all is_token_byte token ≡ true)
unfolding validate_token
validate_token-eq-ok token h =
    elim (Bool-cases
      (is_empty token || (get_or token 0 0 == b'#') || not (all is_token_byte token))) [
        | inl t ↦ absurd (cc (rw t at h))
        | inr f ↦
            let (g, c) =
              ||-false (is_empty token || (get_or token 0 0 == b'#'))
                (not (all is_token_byte token)) f in
            let (a, b) = ||-false (is_empty token) (get_or token 0 0 == b'#') g in
            (a, b, not-true _ c)
      ]

abbrev pub no_space : ℕ → Bool
no_space byte = not (byte == b' ')

pub all-imp :
    (p q : ℕ → Bool) (xs : Bytes)
    → ((x : ℕ) → p x ≡ true → q x ≡ true)
    → all p xs ≡ true
    → all q xs ≡ true
all-imp p q [] f h = refl
all-imp p q (x ∷ xs) f h = let (a, b) = &&-true (p x) _ h in &&-intro (f x a) (all-imp p q xs f b)

token-no_space : (b : ℕ) → is_token_byte b ≡ true → no_space b ≡ true
token-no_space b h = ground arith

token-ascii : (b : ℕ) → is_token_byte b ≡ true → ltb b 0x80 ≡ true
token-ascii b h = ground arith

-- A valid token is well-formed UTF-8, so the conversion behind the check cannot fail.
pub validate_token-from_utf8 :
    (token : Bytes) → validate_token token ≡ ok tt → from_utf8 token ≡ some token
unfolding from_utf8
validate_token-from_utf8 token h =
    rw (is_utf8-ascii token (all-imp _ _ token token-ascii (validate_token-eq-ok token h).2))

-- The split of a name without spaces, with and without arguments.
pub split_field-append :
    (name args : Bytes)
    → all no_space name ≡ true
    → split_field (name ++ b' ' ∷ args) ≡ (name, args)
unfolding split_field
split_field-append [] args h = refl
split_field-append (x ∷ name) args h =
    let (a, b) = &&-true (no_space x) _ h in ground (arith, a, split_field-append name args b)

pub split_field_whole : (name : Bytes) → all no_space name ≡ true → split_field name ≡ (name, [])
unfolding split_field
split_field_whole [] h = refl
split_field_whole (x ∷ name) h =
    let (a, b) = &&-true (no_space x) _ h in ground (arith, a, split_field_whole name b)

pub token-all-no_space : (token : Bytes) → validate_token token ≡ ok tt → all no_space token ≡ true
token-all-no_space token h = all-imp _ _ token token-no_space (validate_token-eq-ok token h).2

-- A field of a line without forbidden bytes has none either.
pub split_field-clean :
    (line : Bytes)
    → any is_forbidden line ≡ false
    → (any is_forbidden (split_field line).0 ≡ false)
      × (any is_forbidden (split_field line).1 ≡ false)
unfolding split_field
split_field-clean [] h = (refl, refl)
split_field-clean (x ∷ line) h =
    let (a, b) = ||-false (is_forbidden x) _ h in
    elim (Bool-cases (x == b' ')) [
      | inl t ↦ rw t (refl, b)
      | inr f ↦ let (c, d) = split_field-clean line b in rw f (rw (a, c) refl, d)
    ]

-- A field and its neighbours spell the line.
pub split_field-spells :
    (line : Bytes)
    → (line ≡ (split_field line).0) ⊎ (line ≡ (split_field line).0 ++ b' ' ∷ (split_field line).1)
unfolding split_field
split_field-spells [] = inl refl
split_field-spells (x ∷ line) = elim (Bool-cases (x == b' ')) [
  | inl t ↦ inr (rw t (ap (λ z. z ∷ line) (==→eq x b' ' t)))
  | inr f ↦ elim (split_field-spells line) [
    | inl e ↦ inl (rw f (ap (λ z. x ∷ z) e))
    | inr e ↦ inr (rw f (ap (λ z. x ∷ z) e))
  ]
]

pub from_utf8-eq-some : (a : Bytes) {b : Bytes} → from_utf8 a ≡ some b → a ≡ b
unfolding from_utf8
from_utf8-eq-some a e = ground arith
