-- ===== src/Protocol/State/Tests.antt =====
-- Runs of the session machines.
use assuan_library_rs.Prelude.{◌+◌, ◌≡◌, refl, inl, List, [], ◌∷◌, some, ok, err}
use assuan_library_rs.Protocol.State.Kinds.{LineKind, RequestKind, StateError}
use assuan_library_rs.Protocol.State.Server
use assuan_library_rs.Protocol.State.Server.{
  ServerMachine, ServerState, receive_request, send_response,
}
use assuan_library_rs.Protocol.State.Client
use assuan_library_rs.Protocol.State.Client.{begin_command, receive}
use assuan_library_rs.Protocol.State.Balance.{
  Event, request, response, IsValid, apply, run, drive, pending, commands, finals, run-balance,
  rejected_forever,
}
use assuan_library_rs.Protocol.State.Lockstep.{
  Link, respond, command, start, step, IsMirrored, Agreed, exchange, permitted, Reach-agreement,
}

abbrev opened : Link
opened = record { client = Client.new; server = Server.new }

greets : permitted opened (respond LineKind.okay) ≡ ok tt
unfolding Server.new send_response
greets = refl

-- A connection after the greeting.
abbrev greeted : Link
greeted = (exchange opened (respond LineKind.okay)).0

commands_next : permitted greeted command ≡ ok tt
unfolding Client.new Server.new receive begin_command
commands_next = refl

Reach-agreement_example :
    IsMirrored greeted × IsMirrored (exchange greeted command).0 × Agreed greeted command
Reach-agreement_example =
    Reach-agreement greeted command (step start (respond LineKind.okay) greets) commands_next

-- A greeting, and a command with an inquiry, answered.
abbrev session : List Event
session =
    response LineKind.okay
    ∷ request RequestKind.command
    ∷ response LineKind.inquire
    ∷ request RequestKind.payload
    ∷ request RequestKind.end
    ∷ response LineKind.okay
    ∷ []

abbrev idle : ServerMachine
idle = record { state = ServerState.ready; inquiry_origin = ServerState.handler }

new-IsValid : IsValid Server.new
unfolding Server.new
new-IsValid = record { asked = inl refl }

session_runs : run Server.new session ≡ some idle
unfolding run Server.new receive_request send_response
session_runs = refl

run-balance_example :
    pending Server.new.state + commands session ≡ finals session + pending idle.state
run-balance_example = run-balance Server.new idle session new-IsValid session_runs

rejects_command :
    (apply Server.new (request RequestKind.command)).1 ≡ err StateError.unexpected_event
unfolding Server.new receive_request
rejects_command = refl

rejected_forever_example :
    (drive (apply Server.new (request RequestKind.command)).0 session
      ≡ (apply Server.new (request RequestKind.command)).0)
    × ((apply
          (drive (apply Server.new (request RequestKind.command)).0 session)
          (response LineKind.okay)).1
        ≡ err StateError.unusable)
rejected_forever_example =
    rejected_forever Server.new (request RequestKind.command) session (response LineKind.okay)
      rejects_command
