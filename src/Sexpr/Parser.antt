-- ===== src/Sexpr/Parser.antt =====
-- crates/assuan-sexpr/src/parser.rs: the parser with its explicit stack of open lists.
pub mod Length
pub mod RoundTrip
use assuan_library_rs.Prelude.{
  ℕ, zero, suc, ◌+◌, ◌-◌, Bool, true, false, not, ◌&&◌, Option, none, some, List, [], ◌∷◌, Bytes,
  length, get_elem?, get_or, take, drop, ltb, leb, ◌==◌, if◌then◌else◌, is_digit, Result, ok, err,
  ◌>>=◌, ok_or, usize_max, checked_add, checked_mul, and_then,
}
use assuan_library_rs.Sexpr.Error.{
  ParseError, at, input_limit, length_overflow, invalid_length, expected_colon, unexpected_token,
  unexpected_eof, trailing_data,
}
use assuan_library_rs.Sexpr.Error
use assuan_library_rs.Sexpr.Limits.{ParseLimits}
use assuan_library_rs.Sexpr.Value.{Sexpr, Items, atom, list, nil, cons, push}

-- The allocator's answers, by the position at which the parser asks: for a place on the stack of
-- open lists, and for a place among a list's children.
pub record Allocator : Type 0 where
  pub stack : ℕ → Bool
  pub children : ℕ → Bool

-- The loop over the digits of a length; it returns the position behind them and their value.
unfoldable pub digits_loop : ℕ → Bytes → ℕ → ℕ → ℕ → Result ParseError (ℕ × ℕ)
digits_loop zero input start position value = ok (position, value)
digits_loop (suc fuel) input start position value = elim (get_elem? input position) [
  | none ↦ ok (position, value)
  | some byte ↦
      let digit =
        ok_or
          (and_then (checked_mul usize_max value 10) (λ v. checked_add usize_max v (byte - b'0')))
          (at length_overflow position) in
      let more = digit >>= λ value'. digits_loop fuel input start (position + 1) value' in
      if not (is_digit byte)
      then ok (position, value)
      else if ltb start position && (get_or input start 0 == b'0')
      then err (at invalid_length position)
      else more
]

abbrev pub colon_at : Bytes → ℕ → Result ParseError ℕ
colon_at input position = elim (get_elem? input position) [
  | none ↦ err (at unexpected_eof position)
  | some byte ↦ if byte == b':' then ok (position + 1) else err (at expected_colon position)
]

-- The payload and the position behind it.
unfoldable pub parse_atom : Bytes → ℕ → ParseLimits → Result ParseError (Bytes × ℕ)
unfolding digits_loop
parse_atom input start limits = do
  digits ← digits_loop (length input) input start start 0
  position ← colon_at input digits.0
  end ←
      if ltb limits.atom_bytes digits.1
      then err (at Error.ParseErrorKind.atom_limit start)
      else ok_or (checked_add usize_max position digits.1) (at length_overflow start)
  if ltb (length input) end
      then err (at unexpected_eof (length input))
      else ok (take (end - position) (drop position input), end)

abbrev pub count_node : ℕ → ParseLimits → ℕ → Result ParseError ℕ
count_node nodes limits position =
    if ltb nodes limits.nodes
    then ok (nodes + 1)
    else err (at Error.ParseErrorKind.node_limit position)

-- One round of the loop, with `next` for the rounds behind it. The stack's top is the list's head.
abbrev pub Next : Type 0
Next = List Items → ℕ → ℕ → Result ParseError (Sexpr × ℕ)

-- A complete value: a child of the innermost open list, or the result.
abbrev pub settle : Allocator → Next → List Items → Sexpr → ℕ → ℕ → Result ParseError (Sexpr × ℕ)
settle heap next [] value position nodes = ok (value, position)
settle heap next (parent ∷ lists) value position nodes =
    if heap.children position
    then next (push parent value ∷ lists) position nodes
    else err (at Error.ParseErrorKind.allocation_failed position)

abbrev pub open_list :
    Allocator → ParseLimits → Next → List Items → ℕ → ℕ → Result ParseError (Sexpr × ℕ)
open_list heap limits next lists position nodes =
    if ltb (length lists) limits.depth
    then (count_node nodes limits position >>= λ nodes'.
        if heap.stack position
        then next (nil ∷ lists) (position + 1) nodes'
        else err (at Error.ParseErrorKind.allocation_failed position))
    else err (at Error.ParseErrorKind.depth_limit position)

abbrev pub close_list : Allocator → Next → List Items → ℕ → ℕ → Result ParseError (Sexpr × ℕ)
close_list heap next [] position nodes = err (at unexpected_token position)
close_list heap next (children ∷ lists) position nodes =
    settle heap next lists (list children) (position + 1) nodes

abbrev pub read_atom :
    Allocator → Bytes → ParseLimits → Next → List Items → ℕ → ℕ → Result ParseError (Sexpr × ℕ)
read_atom heap input limits next lists position nodes =
    count_node nodes limits position >>= λ nodes'.
    parse_atom input position limits >>= λ read. settle heap next lists (atom read.0) read.1 nodes'

abbrev pub dispatch :
    Allocator → Bytes → ParseLimits → Next → ℕ → List Items → ℕ → ℕ → Result ParseError (Sexpr × ℕ)
dispatch heap input limits next byte lists position nodes =
    if byte == b'('
    then open_list heap limits next lists position nodes
    else if byte == b')'
    then close_list heap next lists position nodes
    else if is_digit byte
    then read_atom heap input limits next lists position nodes
    else err (at unexpected_token position)

-- Each round reads a byte at least, so after as many rounds as the input has bytes there is none left
-- to read, and the loop ends by its test for the end of the input.
unfoldable pub parse_loop : ℕ → Allocator → Bytes → ParseLimits → Next
unfolding parse_atom
parse_loop zero heap input limits lists position nodes = err (at unexpected_eof position)
parse_loop (suc fuel) heap input limits lists position nodes = elim (get_elem? input position) [
  | none ↦ err (at unexpected_eof position)
  | some byte ↦
      dispatch heap input limits (parse_loop fuel heap input limits) byte lists position nodes
]

unfoldable pub parse_prefix : Allocator → Bytes → ParseLimits → Result ParseError (Sexpr × ℕ)
unfolding parse_loop
parse_prefix heap input limits =
    if ltb limits.input_bytes (length input)
    then err (at input_limit limits.input_bytes)
    else parse_loop (length input) heap input limits [] 0 0

unfoldable pub parse_complete : Allocator → Bytes → ParseLimits → Result ParseError Sexpr
unfolding parse_prefix
parse_complete heap input limits = do
  read ← parse_prefix heap input limits
  if read.1 == length input then ok read.0 else err (at trailing_data read.1)
