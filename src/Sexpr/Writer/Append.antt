-- ===== src/Sexpr/Writer/Append.antt =====
-- The loop that writes against the canonical text.
use assuan_library_rs.Prelude.{
  ℕ, zero, suc, ◌+◌, ◌≤◌, ◌≡◌, refl, sym, ap, ◌∙◌, List, [], ◌∷◌, ◌++◌, append-nil, append_assoc,
  Bytes, arith,
}
use assuan_library_rs.Sexpr.Value.{
  Items, atom, list, nil, cons, print, print_items, size, size_items,
}
use assuan_library_rs.Sexpr.Writer.{Work, value, close_list, push_values, write_loop, length_digits}

-- The text of the work on the stack, and the rounds that it takes at most.
abbrev pub text_of : List Work → Bytes
text_of [] = []
text_of (value v ∷ pending) = print v ++ text_of pending
text_of (close_list ∷ pending) = b')' ∷ text_of pending

abbrev pub rounds_of : List Work → ℕ
rounds_of [] = 0
rounds_of (value v ∷ pending) = size v + size v + rounds_of pending
rounds_of (close_list ∷ pending) = suc (rounds_of pending)

text_of-push_values :
    (xs : Items) (pending : List Work)
    → text_of (push_values xs pending) ≡ print_items xs ++ text_of pending
unfolding push_values print
text_of-push_values nil pending = refl
text_of-push_values (cons x xs) pending =
    ap (λ z. print x ++ z) (text_of-push_values xs pending)
    ∙ sym (append_assoc (print x) (print_items xs) (text_of pending))

rounds_of-push_values :
    (xs : Items) (pending : List Work)
    → rounds_of (push_values xs pending) ≡ size_items xs + size_items xs + rounds_of pending
unfolding push_values size
rounds_of-push_values nil pending = omega arith
rounds_of-push_values (cons x xs) pending = omega (arith, rounds_of-push_values xs pending)

-- The loop appends the text of its work, given as many rounds as that takes.
pub write_loop-text :
    (fuel : ℕ) (pending : List Work) (output : Bytes)
    → rounds_of pending ≤ fuel
    → write_loop fuel pending output ≡ output ++ text_of pending
unfolding write_loop size print length_digits
write_loop-text zero [] output h = sym (append-nil output)
write_loop-text zero (value (atom bytes) ∷ pending) output h = absurd (omega arith)
write_loop-text zero (value (list xs) ∷ pending) output h = absurd (omega arith)
write_loop-text zero (close_list ∷ pending) output h = absurd (omega arith)
write_loop-text (suc fuel) [] output h = sym (append-nil output)
write_loop-text (suc fuel) (value (atom bytes) ∷ pending) output h =
    let text = print (atom bytes) in
    write_loop-text fuel pending (output ++ text) (omega arith)
    ∙ append_assoc output text (text_of pending)
write_loop-text (suc fuel) (value (list xs) ∷ pending) output h =
    write_loop-text fuel (push_values xs (close_list ∷ pending)) (output ++ b'(' ∷ [])
      (omega (arith, rounds_of-push_values xs (close_list ∷ pending)))
    ∙ append_assoc output (b'(' ∷ []) (text_of (push_values xs (close_list ∷ pending)))
    ∙ ap (λ z. output ++ b'(' ∷ z)
        (text_of-push_values xs (close_list ∷ pending)
          ∙ sym (append_assoc (print_items xs) (b')' ∷ []) (text_of pending)))
write_loop-text (suc fuel) (close_list ∷ pending) output h =
    write_loop-text fuel pending (output ++ b')' ∷ []) (omega arith)
    ∙ append_assoc output (b')' ∷ []) (text_of pending)
