-- ===== src/Sexpr/Writer/RoundTrip.antt =====
-- crates/assuan-sexpr/src/writer.rs: what the writer appends, and the parser on it.
use assuan_library_rs.Prelude.{
  ℕ, suc, ◌+◌, ◌≤◌, ◌≡◌, Bool, ◌⊎◌, inl, inr, [], ◌∷◌, ◌++◌, append-nil, ap, ◌∙◌, Bytes, length,
  arith, ok, err, ok_or, usize_max, checked_add, Bool-cases, Result-cases, >>=-eq-ok,
}
use assuan_library_rs.Sexpr.Error.{EncodeError}
use assuan_library_rs.Sexpr.Limits.{default}
use assuan_library_rs.Sexpr.Value.{Sexpr, print, size, Fits}
use assuan_library_rs.Sexpr.Parser.{Allocator, parse_complete}
use assuan_library_rs.Sexpr.Parser.RoundTrip.{Grants, parse_complete-print}
use assuan_library_rs.Sexpr.Writer.{
  Layout, value, measure, write_loop, reserve_output, write_reserved, write_canonical, to_canonical,
}
use assuan_library_rs.Sexpr.Writer.Append.{write_loop-text}
use assuan_library_rs.Sexpr.Writer.Measure.{measure_loop-Counted}

-- A measured expression stays within the default limits, and the layout has its text's length.
record Laid (v : Sexpr) (layout : Layout) : Type 0 where
  bytes : layout.bytes ≡ length (print v)
  nodes : layout.nodes ≡ size v
  fits : Fits default.depth default.atom_bytes 0 v
  small : (layout.bytes ≤ default.input_bytes) × (layout.nodes ≤ default.nodes)

measure-Laid :
    (reserve : ℕ → Bool) (v : Sexpr) {layout : Layout}
    → measure reserve v ≡ ok layout
    → Laid v layout
unfolding measure
measure-Laid reserve v {layout} e = elim (Bool-cases (reserve 1)) [
  | inr f ↦ absurd (ground (arith, rw f at e))
  | inl t ↦
      let counted =
        measure_loop-Counted (suc default.nodes) reserve ((v, 0) ∷ [])
          (record { bytes = 0; nodes = 0 }) (omega arith, omega arith) (rw t at e) in
      record {
        bytes = omega (arith, counted.bytes);
        nodes = omega (arith, counted.nodes);
        fits = counted.fits.0;
        small = counted.small;
      }
]

reads_back :
    (heap : Allocator) (v : Sexpr) {layout : Layout}
    → Grants heap
    → Laid v layout
    → parse_complete heap (print v) default ≡ ok v
unfolding default
reads_back heap v grants laid =
    parse_complete-print heap default v grants laid.fits (omega (arith, laid.nodes, laid.small))
      (omega (arith, laid.bytes, laid.small)) (omega (arith, laid.bytes, laid.small))

reserved :
    (reserve : ℕ → Bool) (v : Sexpr) (output : Bytes) {layout : Layout}
    → reserve_output reserve v output ≡ ok layout
    → measure reserve v ≡ ok layout
unfolding reserve_output
reserved reserve v output {layout} e =
    let (laid, m, rest) = >>=-eq-ok (measure reserve v) _ e in
    let (final_len, k, done) =
      >>=-eq-ok
        (ok_or {E = EncodeError} (checked_add usize_max (length output) laid.bytes)
          EncodeError.length_overflow)
        _ rest in
    ground (arith, m, done)

refused :
    (reserve : ℕ → Bool) (v : Sexpr) (output : Bytes) {e : EncodeError}
    → reserve_output reserve v output ≡ err e
    → write_canonical reserve v output ≡ (output, err e)
unfolding write_canonical
refused reserve v output m = ap (write_reserved v output) m

written :
    (reserve : ℕ → Bool) (v : Sexpr) (output : Bytes) {layout : Layout}
    → reserve_output reserve v output ≡ ok layout
    → Laid v layout
    → write_canonical reserve v output ≡ (output ++ print v, ok tt)
unfolding write_canonical
written reserve v output {layout} m laid =
    let whole : write_loop (layout.nodes + layout.nodes) (value v ∷ []) output ≡ output ++ print v =
      write_loop-text (layout.nodes + layout.nodes) (value v ∷ []) output
        (omega (arith, laid.nodes))
      ∙ ap (λ z. output ++ z) (append-nil (print v)) in
    ap (write_reserved v output) m ∙ ap (λ z. (z, ok tt)) whole

-- Writing an expression either fails and leaves the output as it was, or appends the canonical text
-- of the expression.
pub write_canonical-output :
    (reserve : ℕ → Bool) (v : Sexpr) (output : Bytes)
    → ((e : EncodeError) × (write_canonical reserve v output ≡ (output, err e)))
      ⊎ (write_canonical reserve v output ≡ (output ++ print v, ok tt))
write_canonical-output reserve v output = elim (Result-cases (reserve_output reserve v output)) [
  | inr (e, m) ↦ inl (e, refused reserve v output m)
  | inl (layout, m) ↦
      inr (written reserve v output m (measure-Laid reserve v (reserved reserve v output m)))
]

-- When an expression is written, the text is its canonical text, and a parser whose heap grants its
-- requests reads the expression back under the default limits.
pub parse_complete-to_canonical :
    (reserve : ℕ → Bool) (heap : Allocator) (v : Sexpr) {bytes : Bytes}
    → Grants heap
    → to_canonical reserve v ≡ ok bytes
    → (bytes ≡ print v) × (parse_complete heap bytes default ≡ ok v)
unfolding to_canonical
parse_complete-to_canonical reserve heap v {bytes} grants e =
    elim (Result-cases (reserve_output reserve v [])) [
      | inr (x, m) ↦ absurd (ground (arith, rw (refused reserve v [] m) at e))
      | inl (layout, m) ↦
          let laid = measure-Laid reserve v (reserved reserve v [] m) in
          let whole : bytes ≡ print v = ground (arith, rw (written reserve v [] m laid) at e) in
          (whole, rw whole (reads_back heap v grants laid))
    ]
