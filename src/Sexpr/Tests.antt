-- ===== src/Sexpr/Tests.antt =====
-- Runs of the parser and the writer at a small expression.
use assuan_library_rs.Prelude.{
  ℕ, ◌≤◌, ◌≡◌, refl, some, ◌⊎◌, Bool, true, ◌++◌, Bytes, codes, length, decimal_loop, arith, ok,
  err, usize_max,
}
use assuan_library_rs.Sexpr.Error.{EncodeError}
use assuan_library_rs.Sexpr.Limits.{ParseLimits, default}
use assuan_library_rs.Sexpr.Value.{Sexpr, atom, list, nil, cons, count, print, size, Fits}
use assuan_library_rs.Sexpr.Parser.{Allocator, parse_prefix, parse_complete}
use assuan_library_rs.Sexpr.Parser.RoundTrip.{Grants, parse_prefix-print, parse_complete-print}
use assuan_library_rs.Sexpr.Writer.{
  write_canonical, to_canonical, measure, reserve_output, decimal_digits, length_digits,
  push_children, push_values, write_loop,
}
use assuan_library_rs.Sexpr.Owned.{to_owned}
use assuan_library_rs.Sexpr.Owned.Copy.{copy, to_owned-copy}
use assuan_library_rs.Sexpr.Writer.RoundTrip.{write_canonical-output, parse_complete-to_canonical}

-- `(3:key(1:n))`.
abbrev key : Sexpr
key = list (cons (atom (codes "key")) (cons (list (cons (atom (codes "n")) nil)) nil))

abbrev key_text : Bytes
key_text = codes "(3:key(1:n))"

abbrev heap : Allocator
heap = record { stack = λ p. true; children = λ p. true }

abbrev reserve : ℕ → Bool
reserve n = true

heap-Grants : Grants heap
heap-Grants = record { stack = λ p. refl; children = λ p. refl }

abbrev limits : ParseLimits
limits = record { input_bytes = 100; atom_bytes = 10; nodes = 10; depth = 2 }

key-Fits : Fits 2 10 0 key
unfolding Fits
key-Fits = (omega arith, (omega arith, ((omega arith, (omega arith, tt)), tt)))

key_size : size key ≤ 10
unfolding size
key_size = omega arith

print-key : (print key ≡ key_text)
unfolding print decimal_loop
print-key = refl

key_short : length (print key ++ codes "rest") ≤ 100
key_short = rw print-key (omega arith)

key_word : length (print key ++ codes "rest") ≤ usize_max
key_word = rw print-key (omega arith)

parse_prefix-print_example :
    parse_prefix heap (print key ++ codes "rest") limits ≡ ok (key, length (print key))
parse_prefix-print_example =
    parse_prefix-print heap limits key (codes "rest") heap-Grants key-Fits key_size key_short
      key_word

key_alone : length (print key) ≤ 100
key_alone = rw print-key (omega arith)

key_alone_word : length (print key) ≤ usize_max
key_alone_word = rw print-key (omega arith)

parse_complete-print_example : parse_complete heap (print key) limits ≡ ok key
parse_complete-print_example =
    parse_complete-print heap limits key heap-Grants key-Fits key_size key_alone key_alone_word

write_canonical-output_example :
    ((e : EncodeError) × (write_canonical reserve key (codes "x") ≡ (codes "x", err e)))
    ⊎ (write_canonical reserve key (codes "x") ≡ (codes "x" ++ print key, ok tt))
write_canonical-output_example = write_canonical-output reserve key (codes "x")

writes_key : to_canonical reserve key ≡ ok key_text
unfolding to_canonical write_canonical reserve_output measure default count push_children
    decimal_digits write_loop push_values length_digits decimal_loop
writes_key = refl

parse_complete-to_canonical_example :
    (key_text ≡ print key) × (parse_complete heap key_text default ≡ ok key)
parse_complete-to_canonical_example =
    parse_complete-to_canonical reserve heap key heap-Grants writes_key

to_owned-copy_example : to_owned key ≡ some (copy key)
to_owned-copy_example = to_owned-copy key
