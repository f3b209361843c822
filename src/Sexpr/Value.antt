-- ===== src/Sexpr/Value.antt =====
-- crates/assuan-sexpr/src/value.rs: expressions, with a list's children as a second type, and the
-- canonical text of an expression as a recursion on it.
use assuan_library_rs.Prelude.{ℕ, suc, ◌+◌, ◌≤◌, ◌<◌, [], ◌∷◌, ◌++◌, Bytes, length, decimal_loop}

mutual
  pub data Sexpr : Type 0 where
    atom : Bytes → Sexpr
    list : Items → Sexpr

  pub data Items : Type 0 where
    nil : Items
    cons : Sexpr → Items → Items

-- `Vec::push` on a list's children, and `children.len()`.
unfoldable pub push : Items → Sexpr → Items
push nil value = cons value nil
push (cons x xs) value = cons x (push xs value)

unfoldable pub count : Items → ℕ
count nil = 0
count (cons x xs) = suc (count xs)

-- The canonical text: a length in decimal, a colon and the payload, or the children in brackets.
unfoldable mutual
  pub print : Sexpr → Bytes
  print (atom bytes) = decimal_loop 40 (length bytes) [] ++ b':' ∷ bytes
  print (list children) = b'(' ∷ (print_items children ++ b')' ∷ [])

  pub print_items : Items → Bytes
  print_items nil = []
  print_items (cons x xs) = print x ++ print_items xs

-- The atoms and lists of an expression.
unfoldable mutual
  pub size : Sexpr → ℕ
  size (atom bytes) = 1
  size (list children) = suc (size_items children)

  pub size_items : Items → ℕ
  size_items nil = 0
  size_items (cons x xs) = size x + size_items xs

-- An expression that stays within limits at `depth` open lists: lists nested no deeper than
-- `max_depth`, and no payload longer than `max_atom`.
unfoldable mutual
  pub Fits : ℕ → ℕ → ℕ → Sexpr → Type 0
  Fits max_depth max_atom depth (atom bytes) = length bytes ≤ max_atom
  Fits max_depth max_atom depth (list children) =
      (depth < max_depth) × FitsItems max_depth max_atom (suc depth) children

  pub FitsItems : ℕ → ℕ → ℕ → Items → Type 0
  FitsItems max_depth max_atom depth nil = Unit
  FitsItems max_depth max_atom depth (cons x xs) =
      Fits max_depth max_atom depth x × FitsItems max_depth max_atom depth xs
