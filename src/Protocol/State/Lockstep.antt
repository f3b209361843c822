-- ===== src/Protocol/State/Lockstep.antt =====
-- Both ends of one connection: each event is validated by the machine of its sender, sent, and
-- received by the machine of the other end.
use assuan_library_rs.Prelude.{◌≡◌, refl, ◌⊎◌, Bool, if◌then◌else◌, arith, Result, ok, err}
use assuan_library_rs.Protocol.State.Kinds.{LineKind, RequestKind, StateError, greeting_rejected}
use assuan_library_rs.Protocol.State.Server
use assuan_library_rs.Protocol.State.Server.{
  ServerState, ServerMachine, receive_request, send_response,
}
use assuan_library_rs.Protocol.State.Client
use assuan_library_rs.Protocol.State.Client.{
  ClientState, ClientMachine, begin_command, receive, finish_inquiry,
}
use assuan_library_rs.Protocol.State.Balance.{IsValid, IsDead}

-- The client's phase in each phase of the server.
abbrev pub mirror : ServerState → ClientState
mirror ServerState.greeting = ClientState.greeting
mirror ServerState.ready = ClientState.ready
mirror ServerState.handler = ClientState.command
mirror ServerState.inquiry = ClientState.inquiry
mirror ServerState.await_final = ClientState.await_final
mirror ServerState.invalid = ClientState.invalid
mirror ServerState.closed = ClientState.closed

pub record Mirrors (c : ClientMachine) (s : ServerMachine) : Type 0 where
  pub phase : c.state ≡ mirror s.state
  pub origin : c.inquiry_origin ≡ mirror s.inquiry_origin
  pub valid : IsValid s

pub new-Mirrors : Mirrors Client.new Server.new
unfolding Client.new Server.new
new-Mirrors = record { phase = refl; origin = refl; valid = ground arith }

-- What one end does: the server responds, or the client sends a command, ends or cancels an inquiry,
-- or sends data for it.
pub data Action : Type 0 where
  respond : LineKind → Action
  command : Action
  finish : Bool → Action
  supply : Action

pub record Link : Type 0 where
  pub client : ClientMachine
  pub server : ServerMachine

abbrev in_inquiry : ClientState → Result StateError (Unit {0})
in_inquiry ClientState.inquiry = ok tt
in_inquiry _ = err StateError.not_ready

-- The verdict of the sender's own machine.
abbrev pub permitted : Link → Action → Result StateError (Unit {0})
permitted l (respond k) = (send_response l.server k).1
permitted l command = (begin_command l.client).1
permitted l (finish cancelled) = (finish_inquiry l.client cancelled).1
permitted l supply = in_inquiry l.client.state

abbrev ending : Bool → RequestKind
ending cancelled = if cancelled then RequestKind.can else RequestKind.end

-- Both machines after the event has been received, and the receiver's verdict.
abbrev pub exchange : Link → Action → Link × Result StateError (Unit {0})
exchange l (respond k) = (
  record { client = (receive l.client k).0; server = (send_response l.server k).0 },
  (receive l.client k).1,
)
exchange l command = (
  record {
    client = (begin_command l.client).0;
    server = (receive_request l.server RequestKind.command).0;
  },
  (receive_request l.server RequestKind.command).1,
)
exchange l (finish cancelled) = (
  record {
    client = (finish_inquiry l.client cancelled).0;
    server = (receive_request l.server (ending cancelled)).0;
  },
  (receive_request l.server (ending cancelled)).1,
)
exchange l supply = (
  record { client = l.client; server = (receive_request l.server RequestKind.payload).0 },
  (receive_request l.server RequestKind.payload).1,
)

-- The receiver accepts; only an error in answer to the greeting is reported, as a rejection, and
-- then both ends are out of use.
abbrev pub Agreed : Link → Action → Type 0
Agreed l a =
    ((exchange l a).1 ≡ ok tt)
    ⊎ (((exchange l a).1 ≡ err greeting_rejected)
        × (a ≡ respond LineKind.error)
        × IsDead (exchange l a).0.server)

abbrev pub IsMirrored : Link → Type 0
IsMirrored l = Mirrors l.client l.server

exchange-IsMirrored :
    (l : Link) (a : Action) → IsMirrored l → permitted l a ≡ ok tt → IsMirrored (exchange l a).0
unfolding receive send_response begin_command receive_request finish_inquiry
exchange-IsMirrored l (respond k) m h = ground arith
exchange-IsMirrored l command m h = ground arith
exchange-IsMirrored l (finish cancelled) m h = ground arith
exchange-IsMirrored l supply m h = ground arith

exchange-Agreed : (l : Link) (a : Action) → IsMirrored l → permitted l a ≡ ok tt → Agreed l a
unfolding receive send_response begin_command receive_request finish_inquiry
exchange-Agreed l (respond k) m h = ground arith
exchange-Agreed l command m h = ground arith
exchange-Agreed l (finish cancelled) m h = ground arith
exchange-Agreed l supply m h = ground arith

-- The links that a new connection can reach by events that their senders' machines permit.
pub data Reach : Link → Type 0 where
  start : Reach (record { client = Client.new; server = Server.new })
  step : {l : Link} → Reach l → (a : Action) → permitted l a ≡ ok tt → Reach (exchange l a).0

pub Reach-IsMirrored : {l : Link} → Reach l → IsMirrored l
Reach-IsMirrored start = new-Mirrors
Reach-IsMirrored (step {l} r a h) = exchange-IsMirrored l a (Reach-IsMirrored r) h

-- However a new connection is used, as long as each end sends only what its own machine permits, the
-- two machines stay in corresponding phases, with corresponding inquiry origins, and the receiver
-- accepts each event, but for an ERR in answer to the greeting, which the client reports as a
-- rejection and which leaves the server unusable.
pub Reach-agreement :
    (l : Link) (a : Action)
    → Reach l
    → permitted l a ≡ ok tt
    → IsMirrored l × IsMirrored (exchange l a).0 × Agreed l a
Reach-agreement l a r h =
    let m = Reach-IsMirrored r in (m, exchange-IsMirrored l a m h, exchange-Agreed l a m h)
