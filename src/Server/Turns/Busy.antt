-- ===== src/Server/Turns/Busy.antt =====
-- crates/assuan-server/src/session.rs: the state of the machine while a command is dispatched.
use assuan_library_rs.Prelude.{◌≡◌, Bool, true, false, arith}
use assuan_library_rs.Protocol.Command.{Command}
use assuan_library_rs.Protocol.State.Kinds.{LineKind, RequestKind}
use assuan_library_rs.Protocol.State.Server.{
  ServerState, handler, inquiry, await_final, invalid, closed, ServerMachine, receive_request,
  send_response, invalidate,
}
use assuan_library_rs.Server.Context.{abandon}
use assuan_library_rs.Server.Session.{Session, dispatch}
use assuan_library_rs.Server.Stable.{IsStable, is_final}
use assuan_library_rs.Server.Stable.Rounds.{dispatch_stable}

-- The phases of a command that is being handled, with where its inquiry comes from.
abbrev pub busy : ServerState → ServerState → Bool
busy handler origin = true
busy inquiry handler = true
busy await_final handler = true
busy invalid origin = true
busy closed origin = true
busy state origin = false

abbrev pub IsBusy : ServerMachine → Type 0
IsBusy m = busy m.state m.inquiry_origin ≡ true

send_response-IsBusy :
    (m : ServerMachine) (event : LineKind)
    → is_final event ≡ false
    → IsBusy m
    → IsBusy (send_response m event).0
unfolding send_response
send_response-IsBusy m event c p = ground arith

receive_request-IsBusy :
    (m : ServerMachine) (event : RequestKind) → IsBusy m → IsBusy (receive_request m event).0
unfolding receive_request
receive_request-IsBusy m event p = ground arith

invalidate-IsBusy : (m : ServerMachine) → IsBusy m → IsBusy (invalidate m)
unfolding invalidate
invalidate-IsBusy m p = ground arith

IsBusy-IsStable : IsStable (λ io. IsBusy io.machine)
unfolding abandon
IsBusy-IsStable = record {
  responds = λ io. send_response-IsBusy io.machine;
  requests = λ io. receive_request-IsBusy io.machine;
  writes = λ io bytes p. p;
  reads = λ io p. p;
  decodes = λ io bytes p. p;
  abandons = λ io. invalidate-IsBusy io.machine;
}

handler-IsBusy : (m : ServerMachine) → m.state ≡ handler → IsBusy m
handler-IsBusy m e = ground arith

-- Only the runner ends a command: when a session is handling a command, then whatever the handler or
-- the hook does with its context, and after HELP too, its machine is still handling that command, in
-- an inquiry of it, waiting for its final line, or unusable; it is not back between two commands.
pub dispatch-IsBusy :
    {S : Type 0} (s : Session S) (command : Command)
    → s.io.machine.state ≡ handler
    → IsBusy (dispatch s command).0.machine
dispatch-IsBusy s command e =
    dispatch_stable (λ io. IsBusy io.machine) IsBusy-IsStable s command
      (handler-IsBusy s.io.machine e)
