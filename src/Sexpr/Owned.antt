-- ===== src/Sexpr/Owned.antt =====
-- crates/assuan-sexpr/src/value.rs: `OwnedSexpr`, and the copy of an expression by a loop with a
-- stack of the lists that are open.
pub mod Copy
use assuan_library_rs.Prelude.{ℕ, zero, suc, ◌+◌, Option, none, some, List, [], ◌∷◌, Bytes}
use assuan_library_rs.Sexpr.Value.{Sexpr, Items, atom, list, nil, cons, size}

mutual
  pub data OwnedSexpr : Type 0 where
    owned_atom : Bytes → OwnedSexpr
    owned_list : OwnedItems → OwnedSexpr

  pub data OwnedItems : Type 0 where
    owned_nil : OwnedItems
    owned_cons : OwnedSexpr → OwnedItems → OwnedItems

-- `owned_children.push(completed)`.
unfoldable pub push_owned : OwnedItems → OwnedSexpr → OwnedItems
push_owned owned_nil value = owned_cons value owned_nil
push_owned (owned_cons x xs) value = owned_cons x (push_owned xs value)

-- The children of each open list that are still to be visited, and those that are copied.
abbrev pub Parents : Type 0
Parents = List (Items × OwnedItems)

-- The two places of the loop: a value to visit, and a copy that is completed.
pub data Cursor : Type 0 where
  visit : Sexpr → Cursor
  completed : OwnedSexpr → Cursor

unfoldable pub copy_loop : ℕ → Cursor → Parents → Option OwnedSexpr
copy_loop fuel (completed value) [] = some value
copy_loop zero (completed value) (parent ∷ parents) = none
copy_loop zero (visit value) parents = none
copy_loop (suc fuel) (visit (atom bytes)) parents =
    copy_loop fuel (completed (owned_atom bytes)) parents
copy_loop (suc fuel) (visit (list nil)) parents =
    copy_loop fuel (completed (owned_list owned_nil)) parents
copy_loop (suc fuel) (visit (list (cons first remaining))) parents =
    copy_loop fuel (visit first) ((remaining, owned_nil) ∷ parents)
copy_loop (suc fuel) (completed value) ((nil, children) ∷ parents) =
    copy_loop fuel (completed (owned_list (push_owned children value))) parents
copy_loop (suc fuel) (completed value) ((cons next remaining, children) ∷ parents) =
    copy_loop fuel (visit next) ((remaining, push_owned children value) ∷ parents)

-- Two rounds for each node at most, one that visits it and one that joins it to its list.
unfoldable pub to_owned : Sexpr → Option OwnedSexpr
to_owned v = copy_loop (size v + size v) (visit v) []
