-- ===== src/Sexpr/Error.antt =====
-- crates/assuan-sexpr/src/error.rs: parsing failures with a byte offset, and encoding failures.
use assuan_library_rs.Prelude.{ℕ, Option, none, some}

pub data ParseErrorKind : Type 0 where
  invalid_limits input_limit atom_limit node_limit depth_limit length_overflow : ParseErrorKind
  invalid_length expected_colon unexpected_token unexpected_eof trailing_data : ParseErrorKind
  allocation_failed : ParseErrorKind

pub record ParseError : Type 0 where
  pub kind : ParseErrorKind
  pub offset : Option ℕ

abbrev pub at : ParseErrorKind → ℕ → ParseError
at kind offset = record { kind = kind; offset = some offset }

abbrev pub bad_limits : ParseError
bad_limits = record { kind = invalid_limits; offset = none }

pub data EncodeError : Type 0 where
  size_limit atom_limit node_limit depth_limit length_overflow allocation_failed : EncodeError
