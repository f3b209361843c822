-- ===== src/Server/Options.antt =====
-- crates/assuan-server/src/options.rs: the limits of a server. A duration is a number of nanoseconds.
-- `max_permits` is the semaphore's `MAX_PERMITS`, and `reaches` says whether the clock can be moved
-- on by a duration, which is taken not to change while the options are in use.
pub mod Valid
use assuan_library_rs.Prelude.{
  ℕ, ◌*◌, ◌^◌, Bool, true, false, ◌||◌, not, ltb, ◌==◌, if◌then◌else◌, Result, ok, err, ◌>>◌, ◌>>=◌,
}
use assuan_library_rs.Server.Error.{ServerError, invalid_options}

pub record ServerOptions : Type 0 where
  pub max_sessions : ℕ
  pub greeting_timeout : ℕ
  pub command_timeout : ℕ
  pub inquiry_timeout : ℕ
  pub max_inquiry_bytes : ℕ
  pub idle_timeout : ℕ
  pub shutdown_timeout : ℕ

abbrev from_secs : ℕ → ℕ
from_secs n = n * 1000000000

unfoldable pub default : ServerOptions
default = record {
  max_sessions = 128;
  greeting_timeout = from_secs 120;
  command_timeout = from_secs 300;
  inquiry_timeout = from_secs 120;
  max_inquiry_bytes = 1024 * 1024;
  idle_timeout = from_secs 300;
  shutdown_timeout = from_secs 30;
}

unfoldable pub deadline : (ℕ → Bool) → ℕ → Result ServerError (Unit {0})
deadline reaches duration =
    if duration == 0
    then err invalid_options
    else if reaches duration
    then ok tt
    else err invalid_options

-- `with_max_sessions` and the rest: a field is set, and the whole is validated.
module _ (max_permits : ℕ) (reaches : ℕ → Bool) where
  unfoldable pub validate : ServerOptions → Result ServerError (Unit {0})
  unfolding deadline
  validate o =
      if (o.max_inquiry_bytes == 0) || (o.max_sessions == 0) || ltb max_permits o.max_sessions
      then err invalid_options
      else do
        deadline reaches o.greeting_timeout
        deadline reaches o.command_timeout
        deadline reaches o.inquiry_timeout
        deadline reaches o.idle_timeout
        deadline reaches o.shutdown_timeout
        ok tt

  abbrev pub validated : ServerOptions → Result ServerError ServerOptions
  validated o = validate o >> ok o

  unfoldable pub with_max_sessions : ℕ → ServerOptions → Result ServerError ServerOptions
  unfolding validate
  with_max_sessions value o = validated (record o { max_sessions = value })

  unfoldable pub with_max_inquiry_bytes : ℕ → ServerOptions → Result ServerError ServerOptions
  unfolding validate
  with_max_inquiry_bytes value o = validated (record o { max_inquiry_bytes = value })

  unfoldable pub with_greeting_timeout : ℕ → ServerOptions → Result ServerError ServerOptions
  unfolding validate
  with_greeting_timeout value o = validated (record o { greeting_timeout = value })

  unfoldable pub with_command_timeout : ℕ → ServerOptions → Result ServerError ServerOptions
  unfolding validate
  with_command_timeout value o = validated (record o { command_timeout = value })

  unfoldable pub with_inquiry_timeout : ℕ → ServerOptions → Result ServerError ServerOptions
  unfolding validate
  with_inquiry_timeout value o = validated (record o { inquiry_timeout = value })

  unfoldable pub with_idle_timeout : ℕ → ServerOptions → Result ServerError ServerOptions
  unfolding validate
  with_idle_timeout value o = validated (record o { idle_timeout = value })

  unfoldable pub with_shutdown_timeout : ℕ → ServerOptions → Result ServerError ServerOptions
  unfolding validate
  with_shutdown_timeout value o = validated (record o { shutdown_timeout = value })
