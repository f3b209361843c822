-- ===== src/Protocol/Escape/Unescape.antt =====
-- An independent description of percent-decoding: a recursion on the text, with no buffer.
use assuan_library_rs.Prelude.{
  ◌∙◌, ap, refl, ℕ, ◌+◌, ◌*◌, ◌≡◌, true, false, inl, inr, Bool-cases, Option, none, some, [], ◌∷◌,
  Bytes, ◌==◌, if◌then◌else◌,
}
use mathlib.Core.Path.{subst}
use mathlib.Core.Option.{none-ne-some}
use assuan_library_rs.Protocol.Escape.{hex}

-- The byte that two hexadecimal digits spell.
abbrev pub pair : Option ℕ → Option ℕ → Option ℕ
pair (some high) (some low) = some (high * 16 + low)
pair _ _ = none

abbrev pub cons? : Option ℕ → Option Bytes → Option Bytes
cons? (some c) (some out) = some (c ∷ out)
cons? _ _ = none

unfoldable pub unescape : Bytes → Option Bytes
unescape [] = some []
unescape (c ∷ []) = if c == b'%' then none else some (c ∷ [])
unescape (c ∷ h ∷ []) =
    let rest = unescape (h ∷ []) in if c == b'%' then none else cons? (some c) rest
unescape (c ∷ h ∷ l ∷ r) =
    let escaped = cons? (pair (hex h) (hex l)) (unescape r) in
    let plain = cons? (some c) (unescape (h ∷ l ∷ r)) in if c == b'%' then escaped else plain

pub unescape_plain :
    (c : ℕ) (r : Bytes) → (c == b'%') ≡ false → unescape (c ∷ r) ≡ cons? (some c) (unescape r)
unfolding unescape
unescape_plain c [] h = rw h
unescape_plain c (x ∷ []) h = rw h
unescape_plain c (x ∷ y ∷ r) h = rw h

-- The derivations of a successful decoding, one rule for each kind of byte.
pub data Unescapes : Bytes → Bytes → Type 0 where
  end : Unescapes [] []
  plain :
      {c : ℕ} {r out : Bytes} → (c == b'%') ≡ false → Unescapes r out → Unescapes (c ∷ r) (c ∷ out)
  escaped :
      {c h k a b : ℕ} {r out : Bytes}
      → (c == b'%') ≡ true
      → hex h ≡ some a
      → hex k ≡ some b
      → Unescapes r out
      → Unescapes (c ∷ h ∷ k ∷ r) ((a * 16 + b) ∷ out)

cons?-eq-some :
    (c : Option ℕ) (o : Option Bytes) {res : Bytes}
    → cons? c o ≡ some res
    → (x : ℕ) × (out : Bytes) × (c ≡ some x) × (o ≡ some out) × (x ∷ out ≡ res)
cons?-eq-some none o e = cc
cons?-eq-some (some x) none e = cc
cons?-eq-some (some x) (some out) e = (x, out, refl, refl, cc)

pair-eq-some :
    (a b : Option ℕ) {x : ℕ}
    → pair a b ≡ some x
    → (h : ℕ) × (k : ℕ) × (a ≡ some h) × (b ≡ some k) × (h * 16 + k ≡ x)
pair-eq-some none b e = cc
pair-eq-some (some h) none e = cc
pair-eq-some (some h) (some k) e = (h, k, refl, refl, cc)

plain-cons :
    (c : ℕ) (o : Option Bytes) {r res : Bytes}
    → (c == b'%') ≡ false
    → ((out : Bytes) → o ≡ some out → Unescapes r out)
    → cons? (some c) o ≡ some res
    → Unescapes (c ∷ r) res
plain-cons c none p ih e = cc
plain-cons c (some out) {r} p ih e = subst (λ z. Unescapes (c ∷ r) z) (cc) (plain p (ih out refl))

pub unescape-Unescapes : (s res : Bytes) → unescape s ≡ some res → Unescapes s res
unfolding unescape
unescape-Unescapes [] res u = subst (λ z. Unescapes [] z) (cc) end
unescape-Unescapes (c ∷ []) res u = elim (Bool-cases (c == b'%')) [
  | inl p ↦ absurd (none-ne-some _ (rw p at u))
  | inr p ↦ plain-cons c (unescape []) p (unescape-Unescapes []) (rw p at u)
]
unescape-Unescapes (c ∷ x ∷ []) res u = elim (Bool-cases (c == b'%')) [
  | inl p ↦ absurd (none-ne-some _ (rw p at u))
  | inr p ↦ plain-cons c (unescape (x ∷ [])) p (unescape-Unescapes (x ∷ [])) (rw p at u)
]
unescape-Unescapes (c ∷ x ∷ y ∷ r) res u = elim (Bool-cases (c == b'%')) [
  | inl p ↦
      let (v, out, e, o, s) = cons?-eq-some (pair (hex x) (hex y)) (unescape r) (rw p at u) in
      let (h, k, ex, ey, f) = pair-eq-some (hex x) (hex y) e in
      subst (λ z. Unescapes (c ∷ x ∷ y ∷ r) z) (ap (λ n. n ∷ out) f ∙ s)
        (escaped p ex ey (unescape-Unescapes r out o))
  | inr p ↦ plain-cons c (unescape (x ∷ y ∷ r)) p (unescape-Unescapes (x ∷ y ∷ r)) (rw p at u)
]
