-- ===== src/Server/Program.antt =====
-- crates/assuan-server/src/context.rs and hooks.rs: what a handler or a hook does with its context. A
-- handler is application code, written as the tree of its calls: it goes on with what each returns.
use assuan_library_rs.Prelude.{ℕ, Option, none, some, Bytes, Result, ok, err}
use assuan_library_rs.Server.Error.{HandlerError}
use assuan_library_rs.Server.Context.{Io, send_status, send_data, abandon}
use assuan_library_rs.Server.Inquiry.{Inquiry, InquiryOutcome, begin, next, finish}

-- A `Program` has the context, and a `Dialog` the guard of an inquiry: it is finished, or dropped, or
-- forgotten without the drop. `late` never ends before the deadline.
mutual
  pub data Program (S : Type 0) : Type 0 where
    done : Result HandlerError (Unit {0}) → Program S
    late : Program S
    state : (S → Program S) → Program S
    set_state : S → Program S → Program S
    status : Bytes → Bytes → (Result HandlerError (Unit {0}) → Program S) → Program S
    payload : Bytes → (Result HandlerError (Unit {0}) → Program S) → Program S
    inquire : Bytes → Bytes → (HandlerError → Program S) → Dialog S → Program S

  pub data Dialog (S : Type 0) : Type 0 where
    next_data : (Result HandlerError (Option Bytes) → Dialog S) → Dialog S
    finished : (Result HandlerError InquiryOutcome → Program S) → Dialog S
    dropped : Program S → Dialog S
    forgotten : Program S → Dialog S
    stalled : Dialog S

-- The connection and the state of the session after a handler, and its result, if it ended in time.
abbrev pub Ran : Type 0 → Type 0
Ran S = Io × S × Option (Result HandlerError (Unit {0}))

-- `max` is the limit on the bytes of an inquiry, of the options.
unfoldable mutual
  unfolding abandon

  pub run_program : {S : Type 0} → ℕ → Program S → Io → S → Ran S
  run_program max (done r) io s = (io, s, some r)
  run_program max late io s = (io, s, none)
  run_program max (state k) io s = run_program max (k s) io s
  run_program max (set_state s' k) io s = run_program max k io s'
  run_program max (status keyword args k) io s =
      let (io', r) = send_status keyword args io in run_program max (k r) io' s
  run_program max (payload bytes k) io s =
      let (io', r) = send_data bytes io in run_program max (k r) io' s
  run_program max (inquire keyword args fail k) io s =
      let (io', r) = begin max keyword args io in
      elim r [ ok q ↦ run_dialog max k q io' s | err e ↦ run_program max (fail e) io' s ]

  pub run_dialog : {S : Type 0} → ℕ → Dialog S → Inquiry → Io → S → Ran S
  run_dialog max (next_data k) q io s =
      let ((io', q'), r) = next q io in run_dialog max (k r) q' io' s
  run_dialog max (finished k) q io s = let (io', r) = finish q io in run_program max (k r) io' s
  run_dialog max (dropped k) q io s = run_program max k (abandon io) s
  run_dialog max (forgotten k) q io s = run_program max k io s
  run_dialog max stalled q io s = (abandon io, s, none)
