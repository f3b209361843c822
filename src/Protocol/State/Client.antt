-- ===== src/Protocol/State/Client.antt =====
-- crates/assuan-protocol/src/state/client.rs: the phases of a client session. A method returns the
-- machine after the call beside its result.
use assuan_library_rs.Prelude.{Bool, true, false, ◌&&◌, if◌then◌else◌, Result, ok, err}
use assuan_library_rs.Protocol.State.Kinds.{
  LineKind, StateError, unexpected_event, not_ready, unusable, greeting_rejected,
}

pub data ClientState : Type 0 where
  greeting ready command inquiry await_final invalid closed : ClientState

pub record ClientMachine : Type 0 where
  pub state : ClientState
  pub inquiry_origin : ClientState

unfoldable pub new : ClientMachine
new = record { state = greeting; inquiry_origin = greeting }

unfoldable pub invalidate : ClientMachine → ClientMachine
invalidate m = elim m.state [ closed ↦ m | _ ↦ record m { state = invalid } ]

unfoldable pub close : ClientMachine → ClientMachine
close m = record m { state = closed }

abbrev pub Outcome : Type 0
Outcome = ClientMachine × Result StateError (Unit {0})

abbrev to : ClientState → ClientMachine → Outcome
to s m = (record m { state = s }, ok tt)

unfoldable pub begin_command : ClientMachine → Outcome
begin_command m = elim m.state [
  | ready ↦ to command m
  | invalid ↦ (m, err unusable)
  | closed ↦ (m, err unusable)
  | _ ↦ (m, err not_ready)
]

abbrev is_greeting : ClientState → Bool
is_greeting greeting = true
is_greeting _ = false

abbrev is_error : LineKind → Bool
is_error LineKind.error = true
is_error _ = false

abbrev ask : ClientMachine → Outcome
ask m = (record m { inquiry_origin = m.state; state = inquiry }, ok tt)

abbrev finish : LineKind → ClientMachine → Outcome
finish event m =
    if is_greeting m.inquiry_origin && is_error event
    then (invalidate m, err greeting_rejected)
    else to ready m

-- The arms of `receive`; the last is its catch-all.
unfoldable pub on_line : ClientState → LineKind → ClientMachine → Outcome
unfolding invalidate
on_line invalid _ m = (m, err unusable)
on_line closed _ m = (m, err unusable)
on_line _ LineKind.comment m = (m, ok tt)
on_line _ LineKind.empty m = (m, ok tt)
on_line greeting LineKind.status m = (m, ok tt)
on_line command LineKind.status m = (m, ok tt)
on_line inquiry LineKind.status m = (m, ok tt)
on_line await_final LineKind.status m = (m, ok tt)
on_line command LineKind.payload m = (m, ok tt)
on_line command LineKind.end m = (m, ok tt)
on_line greeting LineKind.inquire m = ask m
on_line command LineKind.inquire m = ask m
on_line greeting LineKind.okay m = to ready m
on_line command LineKind.okay m = to ready m
on_line command LineKind.error m = to ready m
on_line greeting LineKind.error m = (invalidate m, err greeting_rejected)
on_line await_final LineKind.okay m = finish LineKind.okay m
on_line await_final LineKind.error m = finish LineKind.error m
on_line _ _ m = (invalidate m, err unexpected_event)

unfoldable pub receive : ClientMachine → LineKind → Outcome
unfolding on_line
receive m event = on_line m.state event m

unfoldable pub finish_inquiry : ClientMachine → Bool → Outcome
finish_inquiry m cancelled = elim m.state [
  | invalid ↦ (m, err unusable)
  | closed ↦ (m, err unusable)
  | inquiry ↦ to (if cancelled then await_final else m.inquiry_origin) m
  | _ ↦ (m, err not_ready)
]
