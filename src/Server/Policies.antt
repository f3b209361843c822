-- ===== src/Server/Policies.antt =====
-- crates/assuan-server/src/hooks.rs: the application's hooks, and the default ones.
use assuan_library_rs.Prelude.{Option, some, codes, Result, ok, err}
use assuan_library_rs.Server.Error.{HandlerError, SessionEnd, remote, unknown_option}
use assuan_library_rs.Server.Hooks.{OptionRequest}
use assuan_library_rs.Server.Program.{Program, done}

-- `closed` has no context; it may not end in time, and then returns nothing.
pub record SessionHooks (S : Type 0) : Type 0 where
  pub authenticate : Program S
  pub option : OptionRequest → Program S
  pub reset : Program S
  pub closed : S → SessionEnd → Option (Result HandlerError (Unit {0}))

-- `DefaultHooks`.
abbrev pub default_hooks : {S : Type 0} → SessionHooks S
default_hooks = record {
  authenticate = done (ok tt);
  option = λ request. done (err (remote unknown_option (codes "unknown option")));
  reset = done (ok tt);
  closed = λ state reason. some (ok tt);
}
