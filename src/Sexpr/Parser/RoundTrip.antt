-- ===== src/Sexpr/Parser/RoundTrip.antt =====
-- The parser on the canonical text of an expression.
use native.Mathlib.Nat.{add-zero, add_assoc}
use native.Mathlib.Numerals.{add-one}
use assuan_library_rs.Prelude.{
  ℕ, suc, ◌+◌, ◌-◌, ◌≤◌, ◌<◌, ◌≡◌, refl, sym, ap, ◌∙◌, true, false, List, [], ◌∷◌, ◌++◌, append-nil,
  append_assoc, Bytes, length, drop, ◌==◌, is_digit, decimal_loop, ok, usize_max, arith, drop-cons,
  length-append, lt→ltb, le→ltb, eq→==, is_empty, all, &&-true, decimal_loop-not_empty,
  decimal_loop-digits,
}
use assuan_library_rs.Sexpr.Limits.{ParseLimits}
use assuan_library_rs.Sexpr.Value.{
  Sexpr, Items, atom, list, nil, cons, push, print, print_items, size, size_items, Fits, FitsItems,
}
use assuan_library_rs.Sexpr.Parser.{
  Allocator, Next, settle, dispatch, parse_loop, parse_prefix, parse_complete,
}
use assuan_library_rs.Sexpr.Parser.Length.{get_elem?-drop, drop-more, parse_atom-print}

-- The children of an open list followed by more children.
abbrev pub append : Items → Items → Items
append nil ys = ys
append (cons x xs) ys = cons x (append xs ys)

append-push : (xs : Items) (y : Sexpr) (ys : Items) → append (push xs y) ys ≡ append xs (cons y ys)
unfolding push
append-push nil y ys = refl
append-push (cons x xs) y ys = ap (λ z. cons x z) (append-push xs y ys)

append-nil_items : (xs : Items) → append xs nil ≡ xs
append-nil_items nil = refl
append-nil_items (cons x xs) = ap (λ z. cons x z) (append-nil_items xs)

-- The rounds that the loop takes for an expression: one for an atom and one for each bracket.
mutual
  rounds : Sexpr → ℕ
  rounds (atom bytes) = 1
  rounds (list children) = suc (suc (rounds_items children))

  rounds_items : Items → ℕ
  rounds_items nil = 0
  rounds_items (cons x xs) = rounds x + rounds_items xs

-- An allocator that grants every request.
pub record Grants (heap : Allocator) : Type 0 where
  pub stack : (p : ℕ) → heap.stack p ≡ true
  pub children : (p : ℕ) → heap.children p ≡ true

digit_byte : (c : ℕ) → is_digit c ≡ true → ((c == b'(') ≡ false) × ((c == b')') ≡ false)
digit_byte c d = ground arith

digits_cons :
    (digits : Bytes)
    → is_empty digits ≡ false
    → all is_digit digits ≡ true
    → (c : ℕ) × (r : Bytes) × (digits ≡ c ∷ r) × (is_digit c ≡ true)
digits_cons [] e d = cc
digits_cons (c ∷ r) e d = (c, r, refl, (&&-true (is_digit c) _ d).0)

module _ (heap : Allocator) (input : Bytes) (limits : ParseLimits) (grants : Grants heap)
    (word : length input ≤ usize_max) where
  loop : ℕ → Next
  loop fuel = parse_loop fuel heap input limits

  -- A round on a byte.
  loop_step :
      (fuel p nodes byte : ℕ) (lists : List Items) (r : Bytes)
      → drop p input ≡ byte ∷ r
      → loop (suc fuel) lists p nodes ≡ dispatch heap input limits (loop fuel) byte lists p nodes
  unfolding loop parse_loop
  loop_step fuel p nodes byte lists r e = rw (get_elem?-drop p input e, parse_loop)

  opens :
      (fuel p nodes : ℕ) (lists : List Items) (r : Bytes)
      → drop p input ≡ b'(' ∷ r
      → length lists < limits.depth
      → nodes < limits.nodes
      → loop (suc fuel) lists p nodes ≡ loop fuel (nil ∷ lists) (suc p) (suc nodes)
  opens fuel p nodes lists r e d n =
      loop_step fuel p nodes b'(' lists r e
      ∙ rw (
        lt→ltb (length lists) limits.depth d,
        lt→ltb nodes limits.nodes n,
        grants.stack p,
        add-one,
        add-one,
      )

  closes :
      (fuel p nodes : ℕ) (done : Items) (lists : List Items) (r : Bytes)
      → drop p input ≡ b')' ∷ r
      → loop (suc fuel) (done ∷ lists) p nodes
        ≡ settle heap (loop fuel) lists (list done) (suc p) nodes
  closes fuel p nodes done lists r e = loop_step fuel p nodes b')' (done ∷ lists) r e ∙ rw add-one

  settles :
      (fuel p nodes : ℕ) (parent : Items) (lists : List Items) (v : Sexpr)
      → settle heap (loop fuel) (parent ∷ lists) v p nodes
        ≡ loop fuel (push parent v ∷ lists) p nodes
  settles fuel p nodes parent lists v = rw (grants.children p)

  reads :
      (fuel p nodes : ℕ) (lists : List Items) (bytes rest : Bytes)
      → drop p input ≡ print (atom bytes) ++ rest
      → length bytes ≤ limits.atom_bytes
      → nodes < limits.nodes
      → loop (suc fuel) lists p nodes
        ≡ settle heap (loop fuel) lists (atom bytes) (p + length (print (atom bytes))) (suc nodes)
  unfolding print
  reads fuel p nodes lists bytes rest e fits n =
      let digits = decimal_loop 40 (length bytes) [] in
      let (c, r, s, d) =
        digits_cons digits (decimal_loop-not_empty 39 (length bytes) [])
          (decimal_loop-digits 40 (length bytes) [] refl) in
      let (l, k) = digit_byte c d in
      let first : drop p input ≡ c ∷ ((r ++ b':' ∷ bytes) ++ rest) =
        e ∙ ap (λ z. (z ++ b':' ∷ bytes) ++ rest) s in
      loop_step fuel p nodes c lists ((r ++ b':' ∷ bytes) ++ rest) first
      ∙ rw (
        l,
        k,
        d,
        lt→ltb nodes limits.nodes n,
        parse_atom-print input p limits bytes rest e fits word,
        add-one,
      )

  mutual
    unfolding rounds print size Fits

    loop-print :
        (v : Sexpr) (fuel p nodes : ℕ) (lists : List Items) (rest : Bytes)
        → drop p input ≡ print v ++ rest
        → Fits limits.depth limits.atom_bytes (length lists) v
        → nodes + size v ≤ limits.nodes
        → loop (rounds v + fuel) lists p nodes
          ≡ settle heap (loop fuel) lists v (p + length (print v)) (nodes + size v)
    loop-print (atom bytes) fuel p nodes lists rest e fits n =
        let one : 1 + fuel ≡ suc fuel = omega arith in
        rw one (reads fuel p nodes lists bytes rest e fits (omega arith))
        ∙ ap (λ k. settle heap (loop fuel) lists (atom bytes) (p + length (print (atom bytes))) k)
            (sym (add-one nodes))
    loop-print (list children) fuel p nodes lists rest e fits n =
        let inner = rounds_items children in
        let text = print_items children in
        let turns : suc (suc inner) + fuel ≡ suc (inner + suc fuel) = omega arith in
        let e1 = (drop-cons p input 0 e).1 ∙ append_assoc text (b')' ∷ []) rest in
        let e2 = drop-more (suc p) input text (b')' ∷ rest) e1 in
        let stop : suc (suc p + length text) ≡ p + length (print (list children)) =
          omega (arith, length-append text (b')' ∷ [])) in
        let total : suc nodes + size_items children ≡ nodes + suc (size_items children) =
          omega arith in
        ap (λ k. loop k lists p nodes) turns
        ∙ opens (inner + suc fuel) p nodes lists ((text ++ b')' ∷ []) ++ rest) e fits.0
            (omega arith)
        ∙ loop-print_items children (suc fuel) (suc p) (suc nodes) nil lists (b')' ∷ rest) e1 fits.1
            (omega arith)
        ∙ closes fuel (suc p + length text) (suc nodes + size_items children) children lists rest e2
        ∙ (λ i. settle heap (loop fuel) lists (list children) (stop i) (total i))

    loop-print_items :
        (xs : Items) (fuel p nodes : ℕ) (done : Items) (lists : List Items) (rest : Bytes)
        → drop p input ≡ print_items xs ++ rest
        → FitsItems limits.depth limits.atom_bytes (suc (length lists)) xs
        → nodes + size_items xs ≤ limits.nodes
        → loop (rounds_items xs + fuel) (done ∷ lists) p nodes
          ≡ loop fuel (append done xs ∷ lists) (p + length (print_items xs)) (nodes + size_items xs)
    loop-print_items nil fuel p nodes done lists rest e fits n =
        let none_left : 0 + fuel ≡ fuel = omega arith in
        rw (none_left, append-nil_items, add-zero, add-zero)
    loop-print_items (cons x xs) fuel p nodes done lists rest e fits n =
        let here = p + length (print x) in
        let e1 = e ∙ append_assoc (print x) (print_items xs) rest in
        let e2 = drop-more p input (print x) (print_items xs ++ rest) e1 in
        let later = rounds_items xs + fuel in
        let stop : here + length (print_items xs) ≡ p + length (print x ++ print_items xs) =
          omega (arith, length-append (print x) (print_items xs)) in
        let total : nodes + size x + size_items xs ≡ nodes + (size x + size_items xs) =
          omega arith in
        ap (λ k. loop k (done ∷ lists) p nodes) (add_assoc (rounds x) (rounds_items xs) fuel)
        ∙ loop-print x later p nodes (done ∷ lists) (print_items xs ++ rest) e1 fits.0 (omega arith)
        ∙ settles later here (nodes + size x) done lists x
        ∙ loop-print_items xs fuel here (nodes + size x) (push done x) lists rest e2 fits.1
            (omega arith)
        ∙ (λ i. loop fuel (append-push done x xs i ∷ lists) (stop i) (total i))

-- The loop needs no more rounds than the text has bytes.
mutual
  unfolding rounds print

  rounds-le : (v : Sexpr) → rounds v ≤ length (print v)
  rounds-le (atom bytes) =
      omega (arith, length-append (decimal_loop 40 (length bytes) []) (b':' ∷ bytes))
  rounds-le (list children) =
      omega (arith, rounds_items-le children, length-append (print_items children) (b')' ∷ []))

  rounds_items-le : (xs : Items) → rounds_items xs ≤ length (print_items xs)
  rounds_items-le nil = omega arith
  rounds_items-le (cons x xs) =
      omega (arith, rounds-le x, rounds_items-le xs, length-append (print x) (print_items xs))

-- With the allocations granted, the parser reads the canonical text of an expression that stays
-- within the limits off the front of any input of permitted size, and reports where the text ends.
pub parse_prefix-print :
    (heap : Allocator) (limits : ParseLimits) (v : Sexpr) (rest : Bytes)
    → Grants heap
    → Fits limits.depth limits.atom_bytes 0 v
    → size v ≤ limits.nodes
    → length (print v ++ rest) ≤ limits.input_bytes
    → length (print v ++ rest) ≤ usize_max
    → parse_prefix heap (print v ++ rest) limits ≡ ok (v, length (print v))
unfolding parse_prefix loop
parse_prefix-print heap limits v rest grants fits nodes small word =
    let input = print v ++ rest in
    let spare = length input - rounds v in
    let fuel : length input ≡ rounds v + spare =
      omega (arith, rounds-le v, length-append (print v) rest) in
    let at_zero : 0 + length (print v) ≡ length (print v) = omega arith in
    rw (le→ltb limits.input_bytes (length input) small) (
      ap (λ k. parse_loop k heap input limits [] 0 0) fuel
      ∙ loop-print heap input limits grants word v spare 0 0 [] rest refl fits (omega arith)
      ∙ ap (λ k. ok (v, k)) at_zero)

-- With the allocations granted, the canonical text of an expression within the limits, of permitted
-- size, is parsed to that expression.
pub parse_complete-print :
    (heap : Allocator) (limits : ParseLimits) (v : Sexpr)
    → Grants heap
    → Fits limits.depth limits.atom_bytes 0 v
    → size v ≤ limits.nodes
    → length (print v) ≤ limits.input_bytes
    → length (print v) ≤ usize_max
    → parse_complete heap (print v) limits ≡ ok v
unfolding parse_complete
parse_complete-print heap limits v grants fits nodes small word =
    let whole = append-nil (print v) in
    let read =
      parse_prefix-print heap limits v [] grants fits nodes (rw whole small) (rw whole word) in
    rw (rw whole at read, eq→== (length (print v)) (length (print v)) refl)
