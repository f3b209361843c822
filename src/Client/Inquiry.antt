-- ===== src/Client/Inquiry.antt =====
-- crates/assuan-client/src/inquiry.rs: data for the server. A guard that is dropped before it is
-- completed invalidates the core.
use assuan_library_rs.Prelude.{
  ℕ, zero, suc, Bool, true, false, Option, none, some, Bytes, codes, length, take, drop, replicate,
  is_empty, ltb, if◌then◌else◌, Result, ok, err, usize_max, checked_add,
}
use assuan_library_rs.Protocol.Error.{ProtocolError, capacity_exceeded}
use assuan_library_rs.Protocol.Encode.{max_line_bytes, encode_data_chunk}
use assuan_library_rs.Protocol.State.Kinds.{StateError, not_ready}
use assuan_library_rs.Protocol.State.Client.{ClientState, ClientMachine, finish_inquiry}
use assuan_library_rs.Client.Error.{protocol, state, limit}
use assuan_library_rs.Client.Core.{SessionCore, Outcome, invalidate, check, checked, write}

abbrev pub is_inquiry : ClientState → Bool
is_inquiry ClientState.inquiry = true
is_inquiry _ = false

-- `Inquiry::check`.
unfoldable pub check_open : SessionCore → Outcome (Unit {0})
unfolding check invalidate
check_open core =
    checked
      (λ c.
        if is_inquiry c.machine.state then (c, ok tt) else (invalidate c, err (state not_ready)))
      (check core)

abbrev pub after_chunk :
    (Bytes → SessionCore → Outcome (Unit {0}))
    → Bytes
    → SessionCore
    → Bytes × Result ProtocolError (ℕ × ℕ)
    → Outcome (Unit {0})
after_chunk next rest core (scratch, err e) = (core, err (protocol e))
after_chunk next rest core (scratch, ok (consumed, written)) =
    checked (λ c. if is_empty (drop consumed rest) then (c, ok tt) else next (drop consumed rest) c)
      (write (take written scratch) core)

-- The loop of `send`: a chunk of a nonempty input takes a byte at least.
unfoldable pub send_loop : ℕ → Bytes → SessionCore → Outcome (Unit {0})
unfolding write
send_loop zero rest core = (core, ok tt)
send_loop (suc fuel) rest core =
    after_chunk (send_loop fuel) rest core (encode_data_chunk rest (replicate max_line_bytes 0))

abbrev pub bounded : ℕ → Option ℕ → Option ℕ
bounded max none = none
bounded max (some total) = if ltb max total then none else some total

abbrev pub send_within : Bytes → SessionCore → Option ℕ → Outcome (Unit {0})
send_within bytes core none = (invalidate core, err (limit capacity_exceeded))
send_within bytes core (some total) = send_loop (suc (length bytes)) bytes core

-- `Inquiry::send` after `sent` bytes; a success adds the length of `bytes` to them.
unfoldable pub send : ℕ → ℕ → Bytes → SessionCore → Outcome (Unit {0})
unfolding send_loop check_open
send max sent bytes core =
    checked (λ c. send_within bytes c (bounded max (checked_add usize_max sent (length bytes))))
      (check_open core)

abbrev pub after_finish :
    SessionCore → ClientMachine × Result StateError (Unit {0}) → Outcome (Unit {0})
after_finish core (m, err e) = (record core { machine = m }, err (state e))
after_finish core (m, ok u) = (record core { machine = m }, ok tt)

abbrev pub unless_failed : Outcome (Unit {0}) → Outcome (Unit {0})
unless_failed (core, err e) = (invalidate core, err e)
unless_failed (core, ok u) = (core, ok u)

-- `Inquiry::complete`, which consumes the guard.
unfoldable pub complete : Bool → SessionCore → Outcome (Unit {0})
unfolding check_open write
complete cancelled core = unless_failed (
    checked
      (λ c.
        checked (λ c'. after_finish c' (finish_inquiry c'.machine cancelled))
          (write (if cancelled then codes "CAN\n" else codes "END\n") c))
      (check_open core))
