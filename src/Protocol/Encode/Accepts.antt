-- ===== src/Protocol/Encode/Accepts.antt =====
-- crates/assuan-protocol/src/encode.rs: `write_parts`, which lines are written and what a refused
-- line leaves.
use assuan_library_rs.Prelude.{
  ℕ, suc, ◌+◌, ◌≤◌, ◌<◌, ◌≡◌, refl, ap, some, true, false, ◌⊎◌, inl, inr, List, [], ◌∷◌, ◌++◌,
  Bytes, length, drop, any, concat, ltb, arith, ok, err, usize_max, checked_add, Bool-cases,
  Result-cases, length-append, ltb→lt, ltb→le, ||-false,
}
use assuan_library_rs.Protocol.Error.{ProtocolError}
use assuan_library_rs.Protocol.Command.{is_forbidden}
use assuan_library_rs.Protocol.Command.Fields.{validate_line_clean}
use assuan_library_rs.Protocol.Encode.{max_line_bytes, measure_parts, write_parts}
use assuan_library_rs.Protocol.Encode.Write.{measure_parts-eq-ok, write_parts_ok, write_parts_err}

pub any-split :
    (xs ys : Bytes)
    → any is_forbidden (xs ++ ys) ≡ false
    → (any is_forbidden xs ≡ false) × (any is_forbidden ys ≡ false)
any-split [] ys h = (refl, h)
any-split (x ∷ xs) ys h =
    let (a, b) = ||-false (is_forbidden x) _ h in let (c, d) = any-split xs ys b in (rw a c, d)

add_within : (a b : ℕ) → a + b ≤ max_line_bytes → checked_add usize_max a b ≡ some (a + b)
add_within a b h = ground arith

within_limit : (n : ℕ) → n ≤ max_line_bytes → ltb max_line_bytes n ≡ false
within_limit n h = ground arith

-- The first loop lets every clean line through that fits.
measure_parts_clean :
    (parts : List Bytes) (total : ℕ)
    → any is_forbidden (concat parts) ≡ false
    → total + length (concat parts) ≤ max_line_bytes
    → measure_parts parts total ≡ ok (total + length (concat parts))
unfolding measure_parts
measure_parts_clean [] total clean fits = ap ok (omega arith)
measure_parts_clean (part ∷ parts) total clean fits =
    let (a, b) = any-split part (concat parts) clean in
    let size = length-append part (concat parts) in
    rw
      (
        validate_line_clean part a,
        add_within total (length part) (omega arith),
        within_limit (total + length part) (omega arith),
        measure_parts_clean parts (total + length part) b (omega arith),
      )
      (ap ok (omega arith))

refused_line :
    (parts : List Bytes) (x : ProtocolError)
    → measure_parts parts 1 ≡ err x
    → (any is_forbidden (concat parts) ≡ true) ⊎ (max_line_bytes ≤ length (concat parts))
refused_line parts x m = elim (Bool-cases (any is_forbidden (concat parts))) [
  | inl bad ↦ inl bad
  | inr clean ↦ elim (Bool-cases (ltb (length (concat parts)) max_line_bytes)) [
    | inr long ↦ inr (ltb→le _ _ long)
    | inl short ↦
        let fits = ltb→lt _ _ short in
        absurd (cc (rw (measure_parts_clean parts 1 clean (omega arith)) at m))
  ]
]

-- For storage of the limit's size, the parts are written exactly when none of their bytes ends a
-- line or is zero and there is room for them and a line feed: then the storage holds them, the line
-- feed and its older bytes behind these, and the count is that of the bytes written; else the call
-- fails and leaves the storage.
pub write_parts-accepts :
    (parts : List Bytes) (output : Bytes)
    → length output ≡ max_line_bytes
    → ((any is_forbidden (concat parts) ≡ false)
        × (length (concat parts) < max_line_bytes)
        × (write_parts parts output ≡ (
          concat parts ++ b'\n' ∷ drop (suc (length (concat parts))) output,
          ok (suc (length (concat parts))),
        )))
      ⊎ (((any is_forbidden (concat parts) ≡ true) ⊎ (max_line_bytes ≤ length (concat parts)))
          × ((x : ProtocolError) × (write_parts parts output ≡ (output, err x))))
write_parts-accepts parts output size = elim (Result-cases (measure_parts parts 1)) [
  | inl (total, m) ↦
      let (s, l, clean) = measure_parts-eq-ok parts 1 total (omega arith) m in
      let end : total ≡ suc (length (concat parts)) = omega arith in
      inl (clean, omega arith, rw end at (write_parts_ok parts output total m (omega arith)))
  | inr (x, m) ↦ inr (refused_line parts x m, (x, write_parts_err parts output m))
]
