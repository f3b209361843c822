-- ===== src/Sexpr/Owned/Copy.antt =====
-- The loop of `to_owned` against a recursion on the expression.
use assuan_library_rs.Prelude.{
  ℕ, zero, suc, ◌+◌, ◌-◌, ◌≤◌, ◌<◌, ◌≡◌, refl, ap, ◌∙◌, some, [], ◌∷◌, arith,
}
use assuan_library_rs.Sexpr.Value.{Sexpr, Items, atom, list, nil, cons, size, size_items}
use assuan_library_rs.Sexpr.Owned.{
  OwnedSexpr, OwnedItems, owned_atom, owned_list, owned_nil, owned_cons, push_owned, Parents,
  Cursor, visit, completed, copy_loop, to_owned,
}

-- The expression with each atom and list in its owned form.
unfoldable mutual
  pub copy : Sexpr → OwnedSexpr
  copy (atom bytes) = owned_atom bytes
  copy (list children) = owned_list (copy_items children)

  pub copy_items : Items → OwnedItems
  copy_items nil = owned_nil
  copy_items (cons x xs) = owned_cons (copy x) (copy_items xs)

abbrev join : OwnedItems → OwnedItems → OwnedItems
join owned_nil ys = ys
join (owned_cons x xs) ys = owned_cons x (join xs ys)

join_last : (xs : OwnedItems) (y : OwnedSexpr) → push_owned xs y ≡ join xs (owned_cons y owned_nil)
unfolding push_owned
join_last owned_nil y = refl
join_last (owned_cons x xs) y = ap (owned_cons x) (join_last xs y)

join_pushed :
    (xs ys : OwnedItems) (y : OwnedSexpr) → join (push_owned xs y) ys ≡ join xs (owned_cons y ys)
unfolding push_owned
join_pushed owned_nil ys y = refl
join_pushed (owned_cons x xs) ys y = ap (owned_cons x) (join_pushed xs ys y)

-- The whole copy when a value in the innermost open list is completed.
abbrev plug : OwnedSexpr → Parents → OwnedSexpr
plug value [] = value
plug value ((remaining, children) ∷ parents) =
    plug (owned_list (join children (owned_cons value (copy_items remaining)))) parents

abbrev result_of : Cursor → Parents → OwnedSexpr
result_of (visit v) parents = plug (copy v) parents
result_of (completed value) parents = plug value parents

abbrev rounds_left : Parents → ℕ
rounds_left [] = 0
rounds_left ((remaining, children) ∷ parents) =
    1 + size_items remaining + size_items remaining + rounds_left parents

abbrev rounds_at : Cursor → Parents → ℕ
rounds_at (visit v) parents = size v + size v - 1 + rounds_left parents
rounds_at (completed value) parents = rounds_left parents

some_node : (v : Sexpr) → 0 < size v
unfolding size
some_node (atom bytes) = omega arith
some_node (list children) = omega arith

copy_loop-result :
    (fuel : ℕ) (cursor : Cursor) (parents : Parents)
    → rounds_at cursor parents ≤ fuel
    → copy_loop fuel cursor parents ≡ some (result_of cursor parents)
unfolding copy_loop size copy
copy_loop-result zero (completed value) [] h = refl
copy_loop-result (suc fuel) (completed value) [] h = refl
copy_loop-result zero (completed value) ((remaining, children) ∷ parents) h = absurd (omega arith)
copy_loop-result zero (visit v) parents h = absurd (omega (arith, some_node v))
copy_loop-result (suc fuel) (visit (atom bytes)) parents h =
    copy_loop-result fuel (completed (owned_atom bytes)) parents (omega arith)
copy_loop-result (suc fuel) (visit (list nil)) parents h =
    copy_loop-result fuel (completed (owned_list owned_nil)) parents (omega arith)
copy_loop-result (suc fuel) (visit (list (cons first remaining))) parents h =
    copy_loop-result fuel (visit first) ((remaining, owned_nil) ∷ parents)
      (omega (arith, some_node first))
copy_loop-result (suc fuel) (completed value) ((nil, children) ∷ parents) h =
    copy_loop-result fuel (completed (owned_list (push_owned children value))) parents (omega arith)
    ∙ ap (λ z. some (plug (owned_list z) parents)) (join_last children value)
copy_loop-result (suc fuel) (completed value) ((cons next remaining, children) ∷ parents) h =
    copy_loop-result fuel (visit next) ((remaining, push_owned children value) ∷ parents)
      (omega (arith, some_node next))
    ∙ ap (λ z. some (plug (owned_list z) parents))
        (join_pushed children (owned_cons (copy next) (copy_items remaining)) value)

-- The loop of `to_owned` ends within its rounds, for every expression, and gives the copy of it: the
-- same tree with each atom and each list in its owned form.
pub to_owned-copy : (v : Sexpr) → to_owned v ≡ some (copy v)
unfolding to_owned
to_owned-copy v = copy_loop-result (size v + size v) (visit v) [] (omega arith)
