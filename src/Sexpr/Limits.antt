-- ===== src/Sexpr/Limits.antt =====
-- crates/assuan-sexpr/src/limits.rs: validated limits on parsing work.
use assuan_library_rs.Prelude.{ℕ, ◌*◌, ◌||◌, ltb, ◌==◌, if◌then◌else◌, Result, ok, err}
use assuan_library_rs.Sexpr.Error.{ParseError, bad_limits}

-- `MAX_NESTING_DEPTH`.
abbrev pub max_nesting_depth : ℕ
max_nesting_depth = 256

pub record ParseLimits : Type 0 where
  pub input_bytes : ℕ
  pub atom_bytes : ℕ
  pub nodes : ℕ
  pub depth : ℕ

unfoldable pub new : ℕ → ℕ → ℕ → ℕ → Result ParseError ParseLimits
new max_input max_atom max_nodes max_depth =
    if (max_input == 0)
      || (max_nodes == 0)
      || ltb max_input max_atom
      || ltb max_nesting_depth max_depth
    then err bad_limits
    else ok (record {
      input_bytes = max_input;
      atom_bytes = max_atom;
      nodes = max_nodes;
      depth = max_depth;
    })

-- `ParseLimits::default()`.
unfoldable pub default : ParseLimits
default = record {
  input_bytes = 16 * 1024 * 1024;
  atom_bytes = 16 * 1024 * 1024;
  nodes = 65_536;
  depth = 64;
}
