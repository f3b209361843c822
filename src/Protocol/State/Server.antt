-- ===== src/Protocol/State/Server.antt =====
-- crates/assuan-protocol/src/state/server.rs: the phases of a server session. A method returns the
-- machine after the call beside its result.
use assuan_library_rs.Prelude.{Bool, true, false, ◌&&◌, if◌then◌else◌, Result, ok, err}
use assuan_library_rs.Protocol.State.Kinds.{
  LineKind, RequestKind, StateError, unexpected_event, unusable,
}

pub data ServerState : Type 0 where
  greeting ready handler inquiry await_final invalid closed : ServerState

pub record ServerMachine : Type 0 where
  pub state : ServerState
  pub inquiry_origin : ServerState

unfoldable pub new : ServerMachine
new = record { state = greeting; inquiry_origin = greeting }

-- `self.state != Closed`.
unfoldable pub invalidate : ServerMachine → ServerMachine
invalidate m = elim m.state [ closed ↦ m | _ ↦ record m { state = invalid } ]

unfoldable pub close : ServerMachine → ServerMachine
close m = record m { state = closed }

abbrev pub Outcome : Type 0
Outcome = ServerMachine × Result StateError (Unit {0})

abbrev to : ServerState → ServerMachine → Outcome
to s m = (record m { state = s }, ok tt)

-- The arms of `receive_request`; the last is its catch-all.
unfoldable pub on_request : ServerState → RequestKind → ServerMachine → Outcome
unfolding invalidate
on_request invalid _ m = (m, err unusable)
on_request closed _ m = (m, err unusable)
on_request _ RequestKind.comment m = (m, ok tt)
on_request _ RequestKind.empty m = (m, ok tt)
on_request inquiry RequestKind.payload m = (m, ok tt)
on_request ready RequestKind.command m = to handler m
on_request inquiry RequestKind.end m = to m.inquiry_origin m
on_request inquiry RequestKind.can m = to await_final m
on_request _ _ m = (invalidate m, err unexpected_event)

unfoldable pub receive_request : ServerMachine → RequestKind → Outcome
unfolding on_request
receive_request m event = on_request m.state event m

abbrev pub is_greeting : ServerState → Bool
is_greeting greeting = true
is_greeting _ = false

abbrev pub is_error : LineKind → Bool
is_error LineKind.error = true
is_error _ = false

abbrev ask : ServerMachine → Outcome
ask m = (record m { inquiry_origin = m.state; state = inquiry }, ok tt)

abbrev finish : LineKind → ServerMachine → Outcome
finish event m =
    if is_greeting m.inquiry_origin && is_error event then (invalidate m, ok tt) else to ready m

-- The arms of `send_response`; the last is its catch-all.
unfoldable pub on_response : ServerState → LineKind → ServerMachine → Outcome
unfolding invalidate
on_response invalid _ m = (m, err unusable)
on_response closed _ m = (m, err unusable)
on_response _ LineKind.comment m = (m, ok tt)
on_response _ LineKind.empty m = (m, ok tt)
on_response greeting LineKind.status m = (m, ok tt)
on_response handler LineKind.status m = (m, ok tt)
on_response inquiry LineKind.status m = (m, ok tt)
on_response await_final LineKind.status m = (m, ok tt)
on_response handler LineKind.payload m = (m, ok tt)
on_response handler LineKind.end m = (m, ok tt)
on_response greeting LineKind.inquire m = ask m
on_response handler LineKind.inquire m = ask m
on_response greeting LineKind.okay m = to ready m
on_response handler LineKind.okay m = to ready m
on_response handler LineKind.error m = to ready m
on_response greeting LineKind.error m = (invalidate m, ok tt)
on_response await_final LineKind.okay m = finish LineKind.okay m
on_response await_final LineKind.error m = finish LineKind.error m
on_response _ _ m = (invalidate m, err unexpected_event)

unfoldable pub send_response : ServerMachine → LineKind → Outcome
unfolding on_response
send_response m event = on_response m.state event m
