-- ===== src/Protocol/State/Balance.antt =====
-- Runs of a server session in which every event is accepted: what they leave, and how the final
-- responses answer the commands.
use assuan_library_rs.Prelude.{
  ℕ, ◌+◌, ◌≡◌, refl, ◌⊎◌, inl, inr, Result-cases, Option, none, some, List, [], ◌∷◌, arith, ok, err,
}
use assuan_library_rs.Protocol.State.Kinds.{LineKind, RequestKind, StateError}
use assuan_library_rs.Protocol.State.Server.{
  ServerState, ServerMachine, Outcome, greeting, ready, handler, invalid, closed, receive_request,
  send_response,
}

pub data Event : Type 0 where
  request : RequestKind → Event
  response : LineKind → Event

abbrev pub apply : ServerMachine → Event → Outcome
apply m (request k) = receive_request m k
apply m (response k) = send_response m k

-- Only a greeting or a handler asks the client for data.
pub record IsValid (m : ServerMachine) : Type 0 where
  pub asked : (m.inquiry_origin ≡ greeting) ⊎ (m.inquiry_origin ≡ handler)

pub apply-IsValid : (m : ServerMachine) (e : Event) → IsValid m → IsValid (apply m e).0
unfolding receive_request send_response
apply-IsValid m (request k) v = ground arith
apply-IsValid m (response k) v = ground arith

-- A run in which the machine accepts every event.
unfoldable pub run : ServerMachine → List Event → Option ServerMachine
run m [] = some m
run m (e ∷ es) = elim (apply m e).1 [ ok u ↦ run (apply m e).0 es | err x ↦ none ]

abbrev pub command_of : Event → ℕ
command_of (request RequestKind.command) = 1
command_of _ = 0

abbrev pub final_of : Event → ℕ
final_of (response LineKind.okay) = 1
final_of (response LineKind.error) = 1
final_of _ = 0

abbrev pub commands : List Event → ℕ
commands [] = 0
commands (e ∷ es) = command_of e + commands es

abbrev pub finals : List Event → ℕ
finals [] = 0
finals (e ∷ es) = final_of e + finals es

-- The operations that still wait for their final response: the greeting or one command.
abbrev pub pending : ServerState → ℕ
pending ready = 0
pending invalid = 0
pending closed = 0
pending _ = 1

apply-pending :
    (m : ServerMachine) (e : Event)
    → IsValid m
    → (apply m e).1 ≡ ok tt
    → pending m.state + command_of e ≡ final_of e + pending (apply m e).0.state
unfolding receive_request send_response
apply-pending m (request k) v h = ground arith
apply-pending m (response k) v h = ground arith

-- In a run of accepted events from a machine whose inquiry origin is valid, the commands and the operation that was pending at its start are, one
-- for one, the final responses sent and the operation still pending at its end.
pub run-balance :
    (m m' : ServerMachine) (es : List Event)
    → IsValid m
    → run m es ≡ some m'
    → pending m.state + commands es ≡ finals es + pending m'.state
unfolding run
run-balance m m' [] v h = ground arith
run-balance m m' (e ∷ es) v h = elim (Result-cases (apply m e).1) [
  | inl (u, a) ↦ omega (
    arith,
    apply-pending m e v a,
    run-balance (apply m e).0 m' es (apply-IsValid m e v) (rw (a, run) at h),
  )
  | inr (x, a) ↦ absurd (cc (rw (a, run) at h))
]

-- Every event in turn, whatever the machine answers.
unfoldable pub drive : ServerMachine → List Event → ServerMachine
drive m [] = m
drive m (e ∷ es) = drive (apply m e).0 es

abbrev pub IsDead : ServerMachine → Type 0
IsDead m = (m.state ≡ invalid) ⊎ (m.state ≡ closed)

apply_dead : (m : ServerMachine) (e : Event) → IsDead m → apply m e ≡ (m, err StateError.unusable)
unfolding receive_request send_response
apply_dead m (request k) d = ground arith
apply_dead m (response k) d = ground arith

drive_dead : (m : ServerMachine) (es : List Event) → IsDead m → drive m es ≡ m
unfolding drive
drive_dead m [] d = refl
drive_dead m (e ∷ es) d = rw (apply_dead m e d) (drive_dead m es d)

apply_rejected-IsDead :
    (m : ServerMachine) (e : Event) {x : StateError} → (apply m e).1 ≡ err x → IsDead (apply m e).0
unfolding receive_request send_response
apply_rejected-IsDead m (request k) h = ground arith
apply_rejected-IsDead m (response k) h = ground arith

-- Once the machine has rejected an event, no later event changes it, and each is answered with
-- `Unusable`.
pub rejected_forever :
    (m : ServerMachine) (e : Event) {x : StateError} (later : List Event) (next : Event)
    → (apply m e).1 ≡ err x
    → (drive (apply m e).0 later ≡ (apply m e).0)
      × ((apply (drive (apply m e).0 later) next).1 ≡ err StateError.unusable)
rejected_forever m e later next h =
    let d = apply_rejected-IsDead m e h in
    let same = drive_dead (apply m e).0 later d in
    (same, rw same (rw (apply_dead (apply m e).0 next d)))
