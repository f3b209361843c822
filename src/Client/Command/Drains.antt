-- ===== src/Client/Command/Drains.antt =====
-- crates/assuan-client/src/client.rs: the lines that were read ahead, taken in before a command
-- starts.
use assuan_library_rs.Prelude.{
  ℕ, zero, suc, ◌<◌, ◌≡◌, refl, Bool, true, false, arith, if◌then◌else◌, ok, err,
}
use assuan_library_rs.Transport.Channel.{has_buffered_input}
use assuan_library_rs.Server.Inquiry.{bytes_ahead}
use assuan_library_rs.Client.Core.{SessionCore, Outcome, Received, read}
use assuan_library_rs.Client.Command.{after_read, drain_from}
use assuan_library_rs.Client.Collect.Enough.{read_fewer}

after_read_same :
    (next next' : SessionCore → Outcome (Unit {0})) (o : Outcome Received)
    → ((received : Received) → o.1 ≡ ok received → next o.0 ≡ next' o.0)
    → after_read next o ≡ after_read next' o
after_read_same next next' (core, err e) k = refl
after_read_same next next' (core, ok received) k = k received refl

if_same :
    (b : Bool) (x y z : Outcome (Unit {0})) → x ≡ y → (if b then x else z) ≡ (if b then y else z)
if_same true x y z e = e
if_same false x y z e = refl

-- With a round more than there are bytes ahead, the loop never runs out of rounds.
pub drain_from_enough :
    (stuck stuck' : SessionCore → Outcome (Unit {0})) (fuel : ℕ) (core : SessionCore)
    → bytes_ahead core.channel < fuel
    → drain_from stuck fuel core ≡ drain_from stuck' fuel core
unfolding drain_from
drain_from_enough stuck stuck' zero core l = absurd (omega (arith, l))
drain_from_enough stuck stuck' (suc fuel) core l =
    if_same (has_buffered_input core.channel) (after_read (drain_from stuck fuel) (read core))
      (after_read (drain_from stuck' fuel) (read core)) (core, ok tt)
      (after_read_same (drain_from stuck fuel) (drain_from stuck' fuel) (read core) (λ received e.
        drain_from_enough stuck stuck' fuel (read core).0
          (omega (arith, l, read_fewer core received e))))

after_read-ok :
    (next : SessionCore → Outcome (Unit {0})) (o : Outcome Received)
    → ((received : Received)
        → o.1 ≡ ok received
        → (next o.0).1 ≡ ok tt
        → has_buffered_input (next o.0).0.channel ≡ false)
    → (after_read next o).1 ≡ ok tt
    → has_buffered_input (after_read next o).0.channel ≡ false
after_read-ok next (core, err x) k e = cc
after_read-ok next (core, ok received) k e = k received refl e

unless_buffered :
    (b : Bool) (core : SessionCore) (o : Outcome (Unit {0}))
    → has_buffered_input core.channel ≡ b
    → (o.1 ≡ ok tt → has_buffered_input o.0.channel ≡ false)
    → (if b then o else (core, ok tt)).1 ≡ ok tt
    → has_buffered_input (if b then o else (core, ok tt)).0.channel ≡ false
unless_buffered true core o h k e = k e
unless_buffered false core o h k e = h

-- With a round more than there are bytes ahead, a loop that succeeds leaves nothing read ahead.
pub drain_from_empties :
    (stuck : SessionCore → Outcome (Unit {0})) (fuel : ℕ) (core : SessionCore)
    → bytes_ahead core.channel < fuel
    → (drain_from stuck fuel core).1 ≡ ok tt
    → has_buffered_input (drain_from stuck fuel core).0.channel ≡ false
unfolding drain_from
drain_from_empties stuck zero core l e = absurd (omega (arith, l))
drain_from_empties stuck (suc fuel) core l e =
    unless_buffered (has_buffered_input core.channel) core
      (after_read (drain_from stuck fuel) (read core)) refl
      (after_read-ok (drain_from stuck fuel) (read core) (λ received got.
        drain_from_empties stuck fuel (read core).0
          (omega (arith, l, read_fewer core received got))))
      e
