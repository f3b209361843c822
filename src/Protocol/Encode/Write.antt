-- ===== src/Protocol/Encode/Write.antt =====
-- `write_parts`: what is in the storage after a call that succeeds, and when a call succeeds.
use assuan_library_rs.Prelude.{
  ℕ, suc, ◌+◌, ◌≤◌, ◌<◌, ◌≡◌, ap, ◌∙◌, false, some, inl, inr, List, [], ◌∷◌, ◌++◌, append-nil,
  append_assoc, Bytes, length, set, take, take-append, ◌-◌, drop, any, concat, ltb, arith, Result,
  ok, err, ok_or, usize_max, checked_add, Bool-cases, Result-cases, >>=-eq-ok, ok_or-eq-ok,
  any-append, length-append, length-snoc, set-append-drop, ltb→le,
}
use assuan_library_rs.Protocol.Error.{ProtocolError, line_too_long}
use assuan_library_rs.Protocol.Command.{is_forbidden, validate_line}
use assuan_library_rs.Protocol.Command.Fields.{validate_line-eq-ok}
use assuan_library_rs.Protocol.Encode.{
  max_line_bytes, Written, copy_at, measure_parts, copy_parts, write_parts,
}

-- `text` written over the start of the storage.
abbrev pub over : Bytes → Bytes → Bytes
over text output = text ++ drop (length text) output

pub copy_at-over :
    (output text part : Bytes)
    → length text + length part ≤ length output
    → copy_at (over text output) (length text) part ≡ over (text ++ part) output
copy_at-over output text [] h = rw append-nil
copy_at-over output text (byte ∷ part) h =
    let ih = copy_at-over output (text ++ byte ∷ []) part (omega (arith, length-snoc text byte)) in
    rw (set-append-drop text output byte (omega arith), ← length-snoc text byte, ih)
      (ap (λ z. over z output) (append_assoc text (byte ∷ []) part))

checked_add-eq-some : (a b c : ℕ) → checked_add usize_max a b ≡ some c → c ≡ a + b
checked_add-eq-some a b c h = ground arith

-- A successful first loop: the total, its bound, and no byte that ends or breaks a line.
pub measure_parts-eq-ok :
    (parts : List Bytes) (total result : ℕ)
    → total ≤ max_line_bytes
    → measure_parts parts total ≡ ok result
    → (result ≡ total + length (concat parts))
      × (result ≤ max_line_bytes)
      × (any is_forbidden (concat parts) ≡ false)
unfolding measure_parts
measure_parts-eq-ok [] total result h e = ground arith
measure_parts-eq-ok (part ∷ parts) total result h e =
    let (u, v, e1) = >>=-eq-ok (validate_line part) _ e in
    let (t, o, e2) =
      >>=-eq-ok (ok_or (checked_add usize_max total (length part)) line_too_long) _ e1 in
    let c = checked_add-eq-some total (length part) t (ok_or-eq-ok _ _ o) in
    elim (Bool-cases (ltb max_line_bytes t)) [
      | inl long ↦ absurd (cc (rw long at e2))
      | inr fits ↦
          let (n, m, clean) =
            measure_parts-eq-ok parts t result (ltb→le _ _ fits) (rw fits at e2) in
          (
            omega (arith, length-append part (concat parts)),
            m,
            any-append is_forbidden part (concat parts) (validate_line-eq-ok part v) clean,
          )
    ]

pub copy_parts-over :
    (parts : List Bytes) (output text : Bytes)
    → length text + length (concat parts) ≤ length output
    → copy_parts parts (over text output) (length text)
      ≡ (over (text ++ concat parts) output, length (text ++ concat parts))
unfolding copy_parts
copy_parts-over [] output text h = rw append-nil
copy_parts-over (part ∷ parts) output text h =
    let fits = length-append part (concat parts) in
    rw
      (
        copy_at-over output text part (omega arith),
        ← length-append text part,
        copy_parts-over parts output (text ++ part) (omega (arith, length-append text part)),
      )
      (ap (λ z. (over z output, length z)) (append_assoc text part (concat parts)))

-- The storage after a successful call: the text, a line feed, and the older bytes behind them.
pub record Wrote (output text : Bytes) (n : ℕ) (w : Written ℕ) : Type 0 where
  pub size : n ≡ suc (length text)
  pub fits : n ≤ max_line_bytes
  pub clean : any is_forbidden text ≡ false
  pub storage : w.0 ≡ text ++ b'\n' ∷ drop n output

pub over-feed :
    (text output : Bytes)
    → length text < length output
    → set (over text output) (length text) b'\n' ≡ text ++ b'\n' ∷ drop (suc (length text)) output
over-feed text output h =
    set-append-drop text output b'\n' h
    ∙ append_assoc text (b'\n' ∷ []) (drop (suc (length text)) output)

pub write_parts_ok :
    (parts : List Bytes) (output : Bytes) (total : ℕ)
    → measure_parts parts 1 ≡ ok total
    → length (concat parts) < length output
    → write_parts parts output
      ≡ (concat parts ++ b'\n' ∷ drop (suc (length (concat parts))) output, ok total)
unfolding write_parts
write_parts_ok parts output total f h =
    rw (f, copy_parts-over parts output [] (omega arith))
      (ap (λ z. (z, ok total)) (over-feed (concat parts) output h))

-- A refused call leaves the storage as it was.
pub write_parts_err :
    (parts : List Bytes) (output : Bytes) {x : ProtocolError}
    → measure_parts parts 1 ≡ err x
    → write_parts parts output ≡ (output, err x)
unfolding write_parts
write_parts_err parts output f = rw f

ok-injective : {a b : ℕ} → ◌≡◌ {A = Result ProtocolError ℕ} (ok a) (ok b) → a ≡ b
ok-injective e = cc

pub write_parts-Wrote :
    (parts : List Bytes) (output : Bytes) (n : ℕ)
    → length output ≡ max_line_bytes
    → (write_parts parts output).1 ≡ ok n
    → Wrote output (concat parts) n (write_parts parts output)
write_parts-Wrote parts output n h e = elim (Result-cases (measure_parts parts 1)) [
  | inr (x, f) ↦ absurd (cc (rw (write_parts_err parts output f) at e))
  | inl (total, f) ↦
      let (s, m, clean) = measure_parts-eq-ok parts 1 total (omega arith) f in
      let w = write_parts_ok parts output total f (omega arith) in
      let same : total ≡ n = ok-injective (rw w at e) in
      let end : suc (length (concat parts)) ≡ n = omega arith in
      record {
        size = omega arith;
        fits = omega arith;
        clean = clean;
        storage = rw w (ap (λ z. concat parts ++ b'\n' ∷ drop z output) end);
      }
]

-- What a caller that sends the written bytes without the line feed hands to a parser.
abbrev pub sent : ℕ → Bytes → Bytes
sent n output = take (n - 1) output

pub Wrote-sent :
    {output text : Bytes} {n : ℕ} {w : Written ℕ} → Wrote output text n w → sent n w.0 ≡ text
Wrote-sent {output} {text} {n} r =
    let e : n - 1 ≡ length text = omega (arith, r.size) in
    rw (r.storage, e) (take-append text (b'\n' ∷ drop n output))
