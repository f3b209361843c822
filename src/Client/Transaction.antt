-- ===== src/Client/Transaction.antt =====
-- crates/assuan-client/src/transaction.rs and inquiry.rs: the events of a command. The allocation and
-- the deadline of an inquiry are taken to succeed.
use assuan_library_rs.Prelude.{
  ℕ, zero, suc, Bool, true, false, ◌||◌, not, Option, none, some, Bytes, if◌then◌else◌, Result, ok,
  err,
}
use assuan_library_rs.Protocol.Utf8.{from_utf8}
use assuan_library_rs.Protocol.State.Kinds.{LineKind, not_ready}
use assuan_library_rs.Protocol.State.Client.{ClientState}
use assuan_library_rs.Transport.Channel.{received_line}
use assuan_library_rs.Client.Error.{ClientError, incomplete, state}
use assuan_library_rs.Client.Core.{SessionCore, Outcome, invalidate, check, slice, Received, read}

-- An inquiry carries its keyword and its arguments.
pub data Event : Type 0 where
  inquire : Bytes → Bytes → Event
  payload comment : Bytes → Event
  status : Bytes → Bytes → Event
  end : Event
  finished : Option ℕ → Bytes → Event

pub data Completion : Type 0 where
  pending success : Completion
  remote : ℕ → Completion

pub record Transaction : Type 0 where
  pub core : SessionCore
  pub completion : Completion

abbrev pub Nexted : Type 0
Nexted = Transaction × Result ClientError (Option Event)

abbrev pub transact : SessionCore → Completion → Transaction
transact core completion = record { core = core; completion = completion }

abbrev pub completed_by : LineKind → Option ℕ → Completion → Completion
completed_by LineKind.okay none old = success
completed_by LineKind.okay (some code) old = remote code
completed_by LineKind.error none old = success
completed_by LineKind.error (some code) old = remote code
completed_by _ code old = old

abbrev pub status_of : Option Bytes → Bytes → Result ClientError (Option Event)
status_of none args = err incomplete
status_of (some keyword) args = ok (some (status keyword args))

-- The event of a line, from its ranges.
abbrev pub event_of : LineKind → Bytes → Received → Result ClientError (Option Event)
event_of LineKind.payload line received = ok (some (payload (slice line received.payload)))
event_of LineKind.comment line received = ok (some (comment (slice line received.payload)))
event_of LineKind.end line received = ok (some end)
event_of LineKind.status line received =
    status_of (from_utf8 (slice line received.keyword)) (slice line received.payload)
event_of LineKind.okay line received =
    ok (some (finished received.code (slice line received.payload)))
event_of LineKind.error line received =
    ok (some (finished received.code (slice line received.payload)))
event_of LineKind.inquire line received =
    ok (some (inquire (slice line received.keyword) (slice line received.payload)))
event_of LineKind.empty line received = err incomplete

-- An inquiry whose line is gone invalidates the core, and other events do not.
abbrev pub lost : LineKind → SessionCore → SessionCore
lost LineKind.inquire core = invalidate core
lost _ core = core

abbrev pub with_line : Transaction → Received → Option Bytes → Nexted
with_line t received none = (record t { core = lost received.kind t.core }, err incomplete)
with_line t received (some line) = (t, event_of received.kind line received)

abbrev pub after_line : Completion → SessionCore → Received → Nexted
after_line completion core received =
    with_line (transact core (completed_by received.kind received.code completion)) received
      (received_line core.channel)

abbrev pub is_empty_line : LineKind → Bool
is_empty_line LineKind.empty = true
is_empty_line _ = false

abbrev pub after_received : (SessionCore → Nexted) → Completion → Outcome Received → Nexted
after_received next completion (core, err e) = (transact core completion, err e)
after_received next completion (core, ok received) =
    if is_empty_line received.kind then next core else after_line completion core received

-- Empty lines are passed over; `stuck` is what the loop is that has no round left.
unfoldable pub event_from : (SessionCore → Nexted) → ℕ → Completion → SessionCore → Nexted
event_from stuck zero completion core = stuck core
event_from stuck (suc fuel) completion core =
    after_received (event_from stuck fuel completion) completion (read core)

abbrev pub is_inquiry : ClientState → Bool
is_inquiry ClientState.inquiry = true
is_inquiry _ = false

abbrev pub unless_done : ℕ → Completion → SessionCore → Nexted
unless_done fuel pending core =
    event_from (λ core'. (transact core' pending, err incomplete)) fuel pending core
unless_done fuel completion core = (transact core completion, ok none)

abbrev pub after_check : ℕ → Completion → Outcome (Unit {0}) → Nexted
after_check fuel completion (core, err e) = (transact core completion, err e)
after_check fuel completion (core, ok u) =
    if is_inquiry core.machine.state
    then (transact (invalidate core) completion, err (state not_ready))
    else unless_done fuel completion core

-- `next_event`, with the rounds that it may take.
unfoldable pub next_event : ℕ → Transaction → Nexted
unfolding event_from
next_event fuel t = after_check fuel t.completion (check t.core)

abbrev pub result_of : Completion → Result ClientError (Unit {0})
result_of (remote code) = err (ClientError.remote code)
result_of success = ok tt
result_of pending = err incomplete

abbrev pub is_ready : ClientState → Bool
is_ready ClientState.ready = true
is_ready _ = false

-- `Transaction::drop`.
unfoldable pub dropped : SessionCore → SessionCore
dropped core =
    if core.io_uncertain || not (is_ready core.machine.state) then invalidate core else core

abbrev pub finish_checked : Completion → Outcome (Unit {0}) → Outcome (Unit {0})
finish_checked completion (core, err e) = (dropped core, err e)
finish_checked completion (core, ok u) = (dropped core, result_of completion)

unfoldable pub finish : Transaction → Outcome (Unit {0})
unfolding dropped
finish t = finish_checked t.completion (check t.core)
