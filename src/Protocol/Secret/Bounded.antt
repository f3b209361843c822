-- ===== src/Protocol/Secret/Bounded.antt =====
-- crates/assuan-protocol/src/secret.rs: the fixed-capacity storage against a bounded sequence of
-- bytes.
use assuan_library_rs.Prelude.{
  ℕ, ◌+◌, ◌≤◌, ◌<◌, ◌≡◌, refl, ap, ◌∙◌, ◌⊎◌, inl, inr, Bytes, length, take, drop, replicate, ltb,
  Result, ok, err, usize_max, arith, ◌++◌, take-append, length-append, length-replicate,
  length-drop, Bool-cases, ltb→lt, ltb→le,
}
use assuan_library_rs.Protocol.Error.{LimitError, capacity_exceeded, length_overflow}
use assuan_library_rs.Protocol.Encode.{copy_at}
use assuan_library_rs.Protocol.Encode.Write.{over, copy_at-over}
use assuan_library_rs.Protocol.Secret.{
  SecretBytes, extended_length, capacity, extend_from_slice, expose,
}

-- The storage holds `text` and, behind it, the zeros of the allocation.
pub record Keeps (size : ℕ) (text : Bytes) (s : SecretBytes) : Type 0 where
  pub storage : s.storage ≡ over text (replicate size 0)
  pub len : s.len ≡ length text
  pub room : length text ≤ size

length-storage :
    (size : ℕ) (text : Bytes) (s : SecretBytes) → Keeps size text s → length s.storage ≡ size
length-storage size text s k =
    ap length k.storage
    ∙ omega (
      arith,
      length-append text (drop (length text) (replicate size 0)),
      length-drop (length text) (replicate {A = ℕ} size 0),
      length-replicate {A = ℕ} size 0,
      k.room,
    )

extended_fits : (a b c : ℕ) → a + b ≤ c → c ≤ usize_max → extended_length a b c ≡ ok (a + b)
unfolding extended_length
extended_fits a b c h k = ground arith

extended_full :
    (a b c : ℕ)
    → c < a + b
    → (extended_length a b c ≡ err capacity_exceeded)
      ⊎ ((extended_length a b c ≡ err length_overflow) × (usize_max < a + b))
unfolding extended_length
extended_full a b c h = ground arith

-- What a call leaves when the bytes fit.
abbrev pub Extended : ℕ → Bytes → SecretBytes × Result LimitError (Unit {0}) → Type 0
Extended size text r = Keeps size text r.0 × (r.1 ≡ ok tt) × (expose r.0 ≡ text)

pub Keeps-expose : (size : ℕ) (text : Bytes) (s : SecretBytes) → Keeps size text s → expose s ≡ text
unfolding expose
Keeps-expose size text s k =
    ap (λ z. take z s.storage) k.len
    ∙ ap (take (length text)) k.storage
    ∙ take-append text (drop (length text) (replicate size 0))

pub capacity-Keeps :
    (size : ℕ) (text : Bytes) (s : SecretBytes) → Keeps size text s → capacity s ≡ size
unfolding capacity
capacity-Keeps size text s k = length-storage size text s k

extend_ok :
    (s : SecretBytes) (bytes : Bytes) (n : ℕ)
    → extended_length s.len (length bytes) (capacity s) ≡ ok n
    → extend_from_slice s bytes
      ≡ (record { storage = copy_at s.storage s.len bytes; len = n }, ok tt)
unfolding extend_from_slice
extend_ok s bytes n e = rw (e, extend_from_slice)

extend_err :
    (s : SecretBytes) (bytes : Bytes) (x : LimitError)
    → extended_length s.len (length bytes) (capacity s) ≡ err x
    → extend_from_slice s bytes ≡ (s, err x)
unfolding extend_from_slice
extend_err s bytes x e = rw (e, extend_from_slice)

extend_fits :
    (size : ℕ) (text bytes : Bytes) (s : SecretBytes)
    → Keeps size text s
    → size ≤ usize_max
    → length text + length bytes ≤ size
    → Extended size (text ++ bytes) (extend_from_slice s bytes)
extend_fits size text bytes s k word h =
    let room : s.len + length bytes ≤ capacity s =
      omega (arith, k.len, capacity-Keeps size text s k) in
    let e =
      extended_fits s.len (length bytes) (capacity s) room
        (omega (arith, capacity-Keeps size text s k)) in
    let kept : Keeps size (text ++ bytes)
        (record { storage = copy_at s.storage s.len bytes; len = s.len + length bytes }) =
      record {
        storage =
            ap (λ z. copy_at z s.len bytes) k.storage
            ∙ ap (λ z. copy_at (over text (replicate size 0)) z bytes) k.len
            ∙ copy_at-over (replicate size 0) text bytes
                (omega (arith, length-replicate {A = ℕ} size 0));
        len = omega (arith, k.len, length-append text bytes);
        room = omega (arith, length-append text bytes);
      } in
    rw (extend_ok s bytes (s.len + length bytes) e)
      (kept, refl, Keeps-expose size (text ++ bytes) _ kept)

-- The storage behaves as a sequence of bytes with a bound: bytes that fit are appended and exposed,
-- with zeros behind them; bytes that do not fit are refused with an error, and neither the contents
-- nor the length change.
pub extend_from_slice-Keeps :
    (size : ℕ) (text bytes : Bytes) (s : SecretBytes)
    → Keeps size text s
    → size ≤ usize_max
    → ((length text + length bytes ≤ size)
        × Extended size (text ++ bytes) (extend_from_slice s bytes))
      ⊎ ((size < length text + length bytes)
          × ((extend_from_slice s bytes ≡ (s, err capacity_exceeded))
              ⊎ ((extend_from_slice s bytes ≡ (s, err length_overflow))
                  × (usize_max < length text + length bytes))))
extend_from_slice-Keeps size text bytes s k word =
    elim (Bool-cases (ltb size (length text + length bytes))) [
      | inr f ↦ let h = ltb→le _ _ f in inl (h, extend_fits size text bytes s k word h)
      | inl t ↦
          let h = ltb→lt _ _ t in
          let full =
            extended_full s.len (length bytes) (capacity s)
              (omega (arith, k.len, capacity-Keeps size text s k)) in
          inr (
            h,
            elim full [
              | inl e ↦ inl (extend_err s bytes capacity_exceeded e)
              | inr e ↦ inr (extend_err s bytes length_overflow e.0, omega (arith, e.1, k.len))
            ],
          )
    ]
