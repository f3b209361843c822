-- ===== src/Protocol/Encode/Chunk.antt =====
-- `encode_data_chunk`: how much of the input one line takes, and what the line holds.
use native.Mathlib.Nat.{add-zero}
use assuan_library_rs.Prelude.{
  ℕ, suc, ◌+◌, ◌≤◌, ◌<◌, ◌≡◌, refl, sym, ap, ◌∙◌, ◌⊎◌, true, false, some, inl, inr, [], ◌∷◌, ◌++◌,
  append-nil, append_assoc, Bytes, length, take, any, ltb, ◌==◌, arith, unwrap_or, unwrap_or,
  Bool-cases, Option-cases, any-append, length-append, ltb→le, ltb→lt, ==→eq,
}
use assuan_library_rs.Protocol.Escape.{hex}
use assuan_library_rs.Protocol.Escape.Unescape.{unescape, unescape_plain, cons?}
use assuan_library_rs.Protocol.Command.{is_forbidden}
use assuan_library_rs.Protocol.Encode.{max_line_bytes, escape_of, cost_of, put, chunk_loop}
use assuan_library_rs.Protocol.Encode.Write.{over, copy_at-over}

-- What one byte of input adds to the line, and what a text adds.
pub hide : ℕ → Bytes
hide byte = unwrap_or (escape_of byte) (byte ∷ [])

abbrev pub escape : Bytes → Bytes
escape [] = []
escape (byte ∷ input) = hide byte ++ escape input

pub length-hide : (byte : ℕ) → cost_of (escape_of byte) ≡ length (hide byte)
unfolding hide
length-hide byte = ground arith

pub length-hide_le : (byte : ℕ) → length (hide byte) ≤ 3
unfolding hide
length-hide_le byte = ground arith

put-over :
    (output text : Bytes) (byte : ℕ)
    → length text + length (hide byte) ≤ length output
    → put (over text output) (length text) byte (escape_of byte) ≡ over (text ++ hide byte) output
unfolding hide
put-over output text byte h = elim (Option-cases (escape_of byte)) [
  | inl n ↦ rw n (copy_at-over output text (byte ∷ []) (rw n at h))
  | inr (e, s) ↦ rw s (copy_at-over output text e (rw s at h))
]

-- An escape has no byte that ends or breaks a line.
hide-clean : (byte : ℕ) → any is_forbidden (hide byte) ≡ false
unfolding hide
hide-clean byte = ground arith

pub escape-clean : (input : Bytes) → any is_forbidden (escape input) ≡ false
escape-clean [] = refl
escape-clean (byte ∷ input) =
    any-append is_forbidden (hide byte) (escape input) (hide-clean byte) (escape-clean input)

-- Decoding undoes one escape. The four escapes are read digit by digit.
escape_reads :
    (byte value : ℕ) (r : Bytes)
    → (byte == value) ≡ true
    → cons? (some value) (unescape r) ≡ cons? (some byte) (unescape r)
escape_reads byte value r p = ap (λ b. cons? (some b) (unescape r)) (sym (==→eq byte value p))

unescape-hide : (byte : ℕ) (r : Bytes) → unescape (hide byte ++ r) ≡ cons? (some byte) (unescape r)
unfolding hide hex
unescape-hide byte r = elim (Bool-cases (byte == b'%')) [
  | inl p ↦ rw p (unfold unescape in escape_reads byte b'%' r p)
  | inr f ↦ elim (Bool-cases (byte == b'\r')) [
    | inl p ↦ rw (f, p) (unfold unescape in escape_reads byte b'\r' r p)
    | inr g ↦ elim (Bool-cases (byte == b'\n')) [
      | inl p ↦ rw (f, g, p) (unfold unescape in escape_reads byte b'\n' r p)
      | inr h ↦ elim (Bool-cases (byte == 0)) [
        | inl p ↦ rw (f, g, h, p) (unfold unescape in escape_reads byte 0 r p)
        | inr k ↦ rw (f, g, h, k) (unescape_plain byte r f)
      ]
    ]
  ]
]

-- Decoding undoes the escaping of a text.
pub unescape-escape : (input : Bytes) → unescape (escape input) ≡ some input
unescape-escape [] = unfold unescape in refl
unescape-escape (byte ∷ input) = rw (unescape-hide byte (escape input), unescape-escape input)

-- The loop stops at the end of the input, or at a byte whose escape leaves no room for a line feed.
abbrev pub IsFull : Bytes → Bytes → ℕ → Type 0
IsFull text input k =
    (k ≡ length input) ⊎ (max_line_bytes ≤ length (text ++ escape (take (suc k) input)))

-- The result of the loop after taking `k` bytes of the input behind `text`.
abbrev pub taken : Bytes → Bytes → Bytes → ℕ → ℕ → Bytes × ℕ × ℕ
taken text input output consumed k = (
  over (text ++ escape (take k input)) output,
  length (text ++ escape (take k input)),
  consumed + k,
)

pub record Consumes (text input output : Bytes) (consumed : ℕ) : Type 0 where
  pub k : ℕ
  pub within : k ≤ length input
  pub room : length (text ++ escape (take k input)) < max_line_bytes
  pub full : IsFull text input k
  pub result :
      chunk_loop input (over text output) (length text) consumed
      ≡ taken text input output consumed k

chunk_stop :
    (text input output : Bytes) (consumed : ℕ)
    → length text < max_line_bytes
    → IsFull text input 0
    → chunk_loop input (over text output) (length text) consumed
      ≡ (over text output, length text, consumed)
    → Consumes text input output consumed
chunk_stop text input output consumed h f e = record {
  k = 0;
  within = omega arith;
  room = rw append-nil h;
  full = f;
  result = e ∙ (rw (append-nil, add-zero));
}

overfull :
    (text : Bytes) (byte : ℕ) (input : Bytes)
    → ltb (length text + cost_of (escape_of byte)) max_line_bytes ≡ false
    → IsFull text (byte ∷ input) 0
overfull text byte input f =
    inr (
      rw append-nil (omega (arith, length-append text (hide byte), length-hide byte, ltb→le _ _ f)))

regroup :
    (text input output : Bytes) (consumed k byte : ℕ)
    → taken (text ++ hide byte) input output (consumed + 1) k
      ≡ taken text (byte ∷ input) output consumed (suc k)
regroup text input output consumed k byte =
    let more : consumed + 1 + k ≡ consumed + suc k = omega arith in
    rw (append_assoc text (hide byte) (escape (take k input)), more)

pub chunk_loop-Consumes :
    (input text output : Bytes) (consumed : ℕ)
    → length text < max_line_bytes
    → length output ≡ max_line_bytes
    → Consumes text input output consumed
unfolding chunk_loop
chunk_loop-Consumes [] text output consumed h s =
    chunk_stop text [] output consumed h (inl refl) refl
chunk_loop-Consumes (byte ∷ input) text output consumed h s =
    elim (Bool-cases (ltb (length text + cost_of (escape_of byte)) max_line_bytes)) [
      | inr f ↦ chunk_stop text (byte ∷ input) output consumed h (overfull text byte input f) (rw f)
      | inl t ↦
          let cost = length-hide byte in
          let fits = ltb→lt _ _ t in
          let size = length-append text (hide byte) in
          let next =
            chunk_loop-Consumes input (text ++ hide byte) output (consumed + 1) (omega arith) s in
          record {
            k = suc next.k;
            within = omega (arith, next.within);
            room = rw (← append_assoc text (hide byte) (escape (take next.k input))) next.room;
            full = elim next.full [
              | inl e ↦ inl (ap suc e)
              | inr l ↦
                  inr (rw (← append_assoc text (hide byte) (escape (take (suc next.k) input))) l)
            ];
            result =
                rw (t, put-over output text byte (omega arith), cost, ← size)
                  (next.result ∙ regroup text input output consumed next.k byte);
          }
    ]
