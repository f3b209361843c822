-- ===== src/Sexpr/Writer/Measure.antt =====
-- What a successful measurement says of the expression.
use assuan_library_rs.Sexpr.Writer.Digits.{length-decimal}
use assuan_library_rs.Prelude.{
  ℕ, zero, suc, ◌+◌, ◌≤◌, ◌<◌, ◌≡◌, refl, Bool, inl, inr, [], ◌∷◌, Bytes, length, decimal_loop, ltb,
  arith, ok, Bool-cases, >>=-eq-ok, ltb→lt, length-append,
}
use assuan_library_rs.Sexpr.Limits.{default}
use assuan_library_rs.Sexpr.Value.{
  Sexpr, Items, atom, list, nil, cons, print, print_items, size, size_items, Fits, FitsItems,
}
use assuan_library_rs.Sexpr.Writer.{
  Layout, Pending, decimal_digits, push_children, measure_list, measure_value, measure_loop,
}

-- The sizes of the pending values, and whether each stays within the limits at its depth.
abbrev pub bytes_of : Pending → ℕ
bytes_of [] = 0
bytes_of ((v, depth) ∷ pending) = length (print v) + bytes_of pending

abbrev pub nodes_of : Pending → ℕ
nodes_of [] = 0
nodes_of ((v, depth) ∷ pending) = size v + nodes_of pending

abbrev pub AllFit : Pending → Type 0
AllFit [] = Unit
AllFit ((v, depth) ∷ pending) = Fits default.depth default.atom_bytes depth v × AllFit pending

bytes_of-push_children :
    (xs : Items) (depth : ℕ) (pending : Pending)
    → bytes_of (push_children xs depth pending) ≡ length (print_items xs) + bytes_of pending
unfolding push_children print
bytes_of-push_children nil depth pending = omega arith
bytes_of-push_children (cons x xs) depth pending =
    omega (arith, bytes_of-push_children xs depth pending, length-append (print x) (print_items xs))

nodes_of-push_children :
    (xs : Items) (depth : ℕ) (pending : Pending)
    → nodes_of (push_children xs depth pending) ≡ size_items xs + nodes_of pending
unfolding push_children size
nodes_of-push_children nil depth pending = omega arith
nodes_of-push_children (cons x xs) depth pending =
    omega (arith, nodes_of-push_children xs depth pending)

AllFit-push_children :
    (xs : Items) (depth : ℕ) (pending : Pending)
    → AllFit (push_children xs depth pending)
    → FitsItems default.depth default.atom_bytes depth xs × AllFit pending
unfolding push_children Fits
AllFit-push_children nil depth pending h = (tt, h)
AllFit-push_children (cons x xs) depth pending h =
    let (a, b) = AllFit-push_children xs depth pending h.1 in ((h.0, a), b)

-- A value that is measured: its own bytes, and the work that it leaves.
record Measured (v : Sexpr) (depth : ℕ) (pending : Pending) (added : ℕ) (rest : Pending)
    : Type 0 where
  bytes : added + bytes_of rest ≡ length (print v) + bytes_of pending
  nodes : suc (nodes_of rest) ≡ size v + nodes_of pending
  fits : AllFit rest → Fits default.depth default.atom_bytes depth v × AllFit pending

measured_atom :
    (reserve : ℕ → Bool) (bytes : Bytes) (depth nodes : ℕ) (pending : Pending) {r : ℕ × Pending}
    → measure_value reserve (atom bytes) depth nodes pending ≡ ok r
    → (length bytes ≤ default.atom_bytes)
      × (r ≡ (decimal_digits (length bytes) + 1 + length bytes, pending))
measured_atom reserve bytes depth nodes pending {r} e = ground arith

length-print_atom :
    (bytes : Bytes)
    → length bytes ≤ default.atom_bytes
    → length (print (atom bytes)) ≡ decimal_digits (length bytes) + 1 + length bytes
unfolding default print decimal_digits
length-print_atom bytes h = omega (
  arith,
  length-append (decimal_loop 40 (length bytes) []) (b':' ∷ bytes),
  length-decimal 39 20 (length bytes) [] (omega arith) (omega arith),
)

measured_list :
    (reserve : ℕ → Bool) (xs : Items) (depth nodes : ℕ) (pending : Pending) {r : ℕ × Pending}
    → measure_list reserve xs depth nodes pending ≡ ok r
    → (depth < default.depth) × (r ≡ (2, push_children xs (depth + 1) pending))
measured_list reserve xs depth nodes pending {r} e = ground arith

measure_value-Measured :
    (reserve : ℕ → Bool) (v : Sexpr) (depth nodes : ℕ) (pending : Pending) {r : ℕ × Pending}
    → measure_value reserve v depth nodes pending ≡ ok r
    → Measured v depth pending r.0 r.1
unfolding print size Fits
measure_value-Measured reserve (atom bytes) depth nodes pending {r} e =
    let (small, q) = measured_atom reserve bytes depth nodes pending e in
    rw q (record {
      bytes = rw (length-print_atom bytes small) refl;
      nodes = omega arith;
      fits = λ f. (small, f);
    })
measure_value-Measured reserve (list xs) depth nodes pending {r} e =
    let (deeper, q) = measured_list reserve xs depth nodes pending e in
    let next : suc depth ≡ depth + 1 = omega arith in
    rw q (record {
      bytes = omega (
        arith,
        bytes_of-push_children xs (depth + 1) pending,
        length-append (print_items xs) (b')' ∷ []),
      );
      nodes = omega (arith, nodes_of-push_children xs (depth + 1) pending);
      fits = λ f.
          let (a, b) = AllFit-push_children xs (suc depth) pending (rw next f) in ((deeper, a), b);
    })

-- A loop that returns has counted every byte and every node, within the limits.
pub record Counted (pending : Pending) (layout counted : Layout) : Type 0 where
  pub bytes : counted.bytes ≡ layout.bytes + bytes_of pending
  pub nodes : counted.nodes ≡ layout.nodes + nodes_of pending
  pub fits : AllFit pending
  pub small : (counted.bytes ≤ default.input_bytes) × (counted.nodes ≤ default.nodes)

Counted-refl :
    (layout : Layout) {counted : Layout}
    → counted ≡ layout
    → (layout.bytes ≤ default.input_bytes) × (layout.nodes ≤ default.nodes)
    → Counted [] layout counted
Counted-refl layout {counted} q small =
    rw q (record { bytes = omega arith; nodes = omega arith; fits = tt; small = small })

-- A round of a loop that returns.
measured_round :
    (fuel : ℕ) (reserve : ℕ → Bool) (v : Sexpr) (depth : ℕ) (pending : Pending) (layout : Layout)
    {counted : Layout}
    → measure_loop (suc fuel) reserve ((v, depth) ∷ pending) layout ≡ ok counted
    → (added : ℕ × Pending) × (layout.nodes < default.nodes)
      × (measure_value reserve v depth (layout.nodes + 1) pending ≡ ok added)
      × (layout.bytes + added.0 ≤ default.input_bytes)
      × (measure_loop fuel reserve added.1
            (record { bytes = layout.bytes + added.0; nodes = layout.nodes + 1 })
          ≡ ok counted)
unfolding measure_loop
measured_round fuel reserve v depth pending layout {counted} e =
    elim (Bool-cases (ltb layout.nodes default.nodes)) [
      | inr t ↦ absurd (ground (arith, rw t at e))
      | inl t ↦
          let (added, m, rest) =
            >>=-eq-ok (measure_value reserve v depth (layout.nodes + 1) pending) _ (rw t at e) in
          (
            added,
            ltb→lt layout.nodes default.nodes t,
            m,
            ground (arith, rest),
            ground (arith, rest),
          )
    ]

pub measure_loop-Counted :
    (fuel : ℕ) (reserve : ℕ → Bool) (pending : Pending) (layout : Layout) {counted : Layout}
    → (layout.bytes ≤ default.input_bytes) × (layout.nodes ≤ default.nodes)
    → measure_loop fuel reserve pending layout ≡ ok counted
    → Counted pending layout counted
unfolding measure_loop
measure_loop-Counted zero reserve [] layout small e = Counted-refl layout (cc) small
measure_loop-Counted (suc fuel) reserve [] layout small e = Counted-refl layout (cc) small
measure_loop-Counted zero reserve ((v, depth) ∷ pending) layout small e = cc
measure_loop-Counted (suc fuel) reserve ((v, depth) ∷ pending) layout {counted} small e =
    let (added, more, m, within, rest) = measured_round fuel reserve v depth pending layout e in
    let after : Layout = record { bytes = layout.bytes + added.0; nodes = layout.nodes + 1 } in
    let whole = measure_loop-Counted fuel reserve added.1 after (within, omega arith) rest in
    let one = measure_value-Measured reserve v depth (layout.nodes + 1) pending m in
    record {
      bytes = omega (arith, whole.bytes, one.bytes);
      nodes = omega (arith, whole.nodes, one.nodes);
      fits = one.fits whole.fits;
      small = whole.small;
    }
