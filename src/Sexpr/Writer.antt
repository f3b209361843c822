-- ===== src/Sexpr/Writer.antt =====
-- crates/assuan-sexpr/src/writer.rs: the size of an expression measured against the default limits,
-- then its canonical text appended, both with an explicit stack of pending work. `reserve` is the
-- allocator's answer to a request for so many places.
pub mod Digits
pub mod Measure
pub mod Append
pub mod RoundTrip
use assuan_library_rs.Prelude.{
  ℕ, zero, suc, ◌+◌, ◌/◌, Bool, ◌&&◌, List, [], ◌∷◌, ◌++◌, Bytes, length, ltb, leb, ◌==◌,
  if◌then◌else◌, Result, ok, err, ◌>>=◌, ok_or, usize_max, checked_add, and_then, decimal_loop,
}
use assuan_library_rs.Sexpr.Error.{EncodeError}
use assuan_library_rs.Sexpr.Limits.{ParseLimits, default}
use assuan_library_rs.Sexpr.Value.{Sexpr, Items, atom, list, nil, cons, count}

pub record Layout : Type 0 where
  pub bytes : ℕ
  pub nodes : ℕ

-- `while value >= 10 { value /= 10; count += 1 }`; a `usize` has twenty digits at most.
unfoldable pub decimal_count : ℕ → ℕ → ℕ → ℕ
decimal_count zero value count = count
decimal_count (suc fuel) value count =
    let more = decimal_count fuel (value / 10) (count + 1) in if leb 10 value then more else count

unfoldable pub decimal_digits : ℕ → ℕ
unfolding decimal_count
decimal_digits value = decimal_count 20 value 1

-- The digits of a length, in an array of forty places.
unfoldable pub length_digits : ℕ → Bytes
length_digits value = decimal_loop 40 value []

-- The children on the stack, the first on top.
abbrev pub Pending : Type 0
Pending = List (Sexpr × ℕ)

unfoldable pub push_children : Items → ℕ → Pending → Pending
push_children nil depth pending = pending
push_children (cons x xs) depth pending = (x, depth) ∷ push_children xs depth pending

-- The bytes that a value adds to the layout, and the work that it leaves.
abbrev pub measure_atom : Bytes → Result EncodeError ℕ
measure_atom bytes =
    if ltb default.atom_bytes (length bytes)
    then err EncodeError.atom_limit
    else ok_or
        (and_then (checked_add usize_max (decimal_digits (length bytes)) 1)
          (λ head. checked_add usize_max head (length bytes)))
        EncodeError.length_overflow

abbrev pub measure_list : (ℕ → Bool) → Items → ℕ → ℕ → Pending → Result EncodeError (ℕ × Pending)
measure_list reserve children depth nodes pending =
    if ltb depth default.depth
    then (ok_or
          (and_then (checked_add usize_max nodes (length pending))
            (λ n. checked_add usize_max n (count children)))
          EncodeError.length_overflow
        >>= λ minimum_nodes.
            if ltb default.nodes minimum_nodes
            then err EncodeError.node_limit
            else if reserve (count children)
            then ok (2, push_children children (depth + 1) pending)
            else err EncodeError.allocation_failed)
    else err EncodeError.depth_limit

abbrev pub measure_value : (ℕ → Bool) → Sexpr → ℕ → ℕ → Pending → Result EncodeError (ℕ × Pending)
measure_value reserve (atom bytes) depth nodes pending =
    measure_atom bytes >>= λ added. ok (added, pending)
measure_value reserve (list children) depth nodes pending =
    measure_list reserve children depth nodes pending

-- Every round counts a node, and the loop refuses more nodes than the limit: one round more than the
-- limit is enough.
unfoldable pub measure_loop : ℕ → (ℕ → Bool) → Pending → Layout → Result EncodeError Layout
measure_loop fuel reserve [] layout = ok layout
measure_loop zero reserve ((value, depth) ∷ pending) layout = err EncodeError.node_limit
measure_loop (suc fuel) reserve ((value, depth) ∷ pending) layout =
    let nodes = layout.nodes + 1 in
    let next = λ (bytes : ℕ) (rest : Pending).
      measure_loop fuel reserve rest (record { bytes = bytes; nodes = nodes }) in
    if ltb layout.nodes default.nodes
    then (measure_value reserve value depth nodes pending >>= λ added.
        ok_or (checked_add usize_max layout.bytes added.0) EncodeError.length_overflow >>= λ bytes.
        if ltb default.input_bytes bytes then err EncodeError.size_limit else next bytes added.1)
    else err EncodeError.node_limit

unfoldable pub measure : (ℕ → Bool) → Sexpr → Result EncodeError Layout
unfolding measure_loop
measure reserve value =
    if reserve 1
    then measure_loop (suc default.nodes) reserve ((value, 0) ∷ [])
        (record { bytes = 0; nodes = 0 })
    else err EncodeError.allocation_failed

pub data Work : Type 0 where
  value : Sexpr → Work
  close_list : Work

unfoldable pub push_values : Items → List Work → List Work
push_values nil pending = pending
push_values (cons x xs) pending = value x ∷ push_values xs pending

-- The loop that writes; every round takes one item off the stack.
unfoldable pub write_loop : ℕ → List Work → Bytes → Bytes
write_loop zero pending output = output
write_loop (suc fuel) [] output = output
write_loop (suc fuel) (value (atom bytes) ∷ pending) output =
    write_loop fuel pending (output ++ (length_digits (length bytes) ++ b':' ∷ bytes))
write_loop (suc fuel) (value (list children) ∷ pending) output =
    write_loop fuel (push_values children (close_list ∷ pending)) (output ++ b'(' ∷ [])
write_loop (suc fuel) (close_list ∷ pending) output = write_loop fuel pending (output ++ b')' ∷ [])

-- The room in the output for the measured text.
unfoldable pub reserve_output : (ℕ → Bool) → Sexpr → Bytes → Result EncodeError Layout
reserve_output reserve v output = measure reserve v >>= λ layout.
    ok_or (checked_add usize_max (length output) layout.bytes) EncodeError.length_overflow
    >>= λ final_len.
        if ltb default.input_bytes final_len
        then err EncodeError.size_limit
        else if reserve layout.nodes && reserve layout.bytes
        then ok layout
        else err EncodeError.allocation_failed

-- The text written once there is room for it. A tree of `n` nodes takes two rounds for each node at
-- most, its own and the one that closes a list.
abbrev pub write_reserved :
    Sexpr → Bytes → Result EncodeError Layout → Bytes × Result EncodeError (Unit {0})
write_reserved v output (err e) = (output, err e)
write_reserved v output (ok layout) =
    (write_loop (layout.nodes + layout.nodes) (value v ∷ []) output, ok tt)

-- The output after the call beside the result.
unfoldable pub write_canonical : (ℕ → Bool) → Sexpr → Bytes → Bytes × Result EncodeError (Unit {0})
write_canonical reserve v output = write_reserved v output (reserve_output reserve v output)

unfoldable pub to_canonical : (ℕ → Bool) → Sexpr → Result EncodeError Bytes
to_canonical reserve v =
    let written = write_canonical reserve v [] in written.1 >>= λ _. ok written.0
