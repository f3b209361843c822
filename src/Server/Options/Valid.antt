-- ===== src/Server/Options/Valid.antt =====
-- crates/assuan-server/src/options.rs: what valid options are, `validate` and the setters.
use assuan_library_rs.Prelude.{
  ℕ, ◌<◌, ◌≤◌, ◌≡◌, Bool, true, arith, ◌||◌, ltb, ◌==◌, Result, ok, err, ◌>>◌, refl, sym,
}
use assuan_library_rs.Server.Error.{ServerError}
use assuan_library_rs.Server.Options.{
  ServerOptions, deadline, validate, validated, with_max_sessions, with_max_inquiry_bytes,
  with_greeting_timeout, with_command_timeout, with_inquiry_timeout, with_idle_timeout,
  with_shutdown_timeout,
}

module _ (max_permits : ℕ) (reaches : ℕ → Bool) where
  abbrev pub IsDuration : ℕ → Type 0
  IsDuration duration = (0 < duration) × (reaches duration ≡ true)

  pub record IsValid (o : ServerOptions) : Type 0 where
    pub inquiry_bytes : 0 < o.max_inquiry_bytes
    pub some_session : 0 < o.max_sessions
    pub permits : o.max_sessions ≤ max_permits
    pub greeting : IsDuration o.greeting_timeout
    pub command : IsDuration o.command_timeout
    pub inquiry : IsDuration o.inquiry_timeout
    pub idle : IsDuration o.idle_timeout
    pub shutdown : IsDuration o.shutdown_timeout

  deadline-IsDuration : (d : ℕ) → deadline reaches d ≡ ok tt → IsDuration d
  unfolding deadline
  deadline-IsDuration d e = ground arith

  deadline-ok : (d : ℕ) → IsDuration d → deadline reaches d ≡ ok tt
  unfolding deadline
  deadline-ok d h = ground arith

  abbrev size_test : ServerOptions → Bool
  size_test o =
      (o.max_inquiry_bytes == 0) || (o.max_sessions == 0) || ltb max_permits o.max_sessions

  validate-IsValid : (o : ServerOptions) → validate max_permits reaches o ≡ ok tt → IsValid o
  unfolding validate
  validate-IsValid o e = ground arith

  IsValid-validate : (o : ServerOptions) → IsValid o → validate max_permits reaches o ≡ ok tt
  unfolding validate
  IsValid-validate o v = ground arith

  -- The options that `validate` accepts are those with every limit positive, no more sessions than the
  -- semaphore permits, and durations that the clock can be moved on by.
  pub validate-eq-ok :
      (o : ServerOptions)
      → (validate max_permits reaches o ≡ ok tt → IsValid o)
        × (IsValid o → validate max_permits reaches o ≡ ok tt)
  validate-eq-ok o = (validate-IsValid o, IsValid-validate o)

  validated-eq-ok :
      (o : ServerOptions) (r : Result ServerError (Unit {0})) (o' : ServerOptions)
      → validate max_permits reaches o ≡ r
      → ◌≡◌ {A = Result ServerError ServerOptions} (r >> ok o) (ok o')
      → (o' ≡ o) × IsValid o'
  validated-eq-ok o (ok u) o' v e =
      let same : o ≡ o' = cc in (sym same, rw (← same) (validate-IsValid o v))
  validated-eq-ok o (err x) o' v e = cc

  abbrev pub Sets : Result ServerError ServerOptions → ServerOptions → Type 0
  Sets r changed = (o' : ServerOptions) → r ≡ ok o' → (o' ≡ changed) × IsValid o'

  validated-Sets : (o : ServerOptions) → Sets (validated max_permits reaches o) o
  validated-Sets o o' e = validated-eq-ok o (validate max_permits reaches o) o' refl e

  -- A setter that succeeds has changed its own field alone, and all of the options it returns are valid.
  pub setters-IsValid :
      (value : ℕ) (o : ServerOptions)
      → Sets (with_max_sessions max_permits reaches value o) (record o { max_sessions = value })
        × Sets
            (with_max_inquiry_bytes max_permits reaches value o)
            (record o { max_inquiry_bytes = value })
        × Sets
            (with_greeting_timeout max_permits reaches value o)
            (record o { greeting_timeout = value })
        × Sets
            (with_command_timeout max_permits reaches value o)
            (record o { command_timeout = value })
        × Sets
            (with_inquiry_timeout max_permits reaches value o)
            (record o { inquiry_timeout = value })
        × Sets (with_idle_timeout max_permits reaches value o) (record o { idle_timeout = value })
        × Sets
            (with_shutdown_timeout max_permits reaches value o)
            (record o { shutdown_timeout = value })
  unfolding with_max_sessions with_max_inquiry_bytes with_greeting_timeout with_command_timeout
      with_inquiry_timeout with_idle_timeout with_shutdown_timeout
  setters-IsValid value o = (
    validated-Sets (record o { max_sessions = value }),
    validated-Sets (record o { max_inquiry_bytes = value }),
    validated-Sets (record o { greeting_timeout = value }),
    validated-Sets (record o { command_timeout = value }),
    validated-Sets (record o { inquiry_timeout = value }),
    validated-Sets (record o { idle_timeout = value }),
    validated-Sets (record o { shutdown_timeout = value }),
  )
