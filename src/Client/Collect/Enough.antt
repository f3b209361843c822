-- ===== src/Client/Collect/Enough.antt =====
-- crates/assuan-client/src/response.rs and transaction.rs: the rounds of a collection and of the
-- wait for an event.
use assuan_library_rs.Prelude.{
  ℕ, zero, suc, ◌+◌, ◌<◌, ◌≤◌, ◌≡◌, refl, inl, inr, Bool, true, false, ◌||◌, arith, Option, none,
  some, Bytes, ltb, if◌then◌else◌, Result, ok, err, usize_max, checked_add, Bool-cases,
}
use assuan_library_rs.Transport.Channel.{Channel, read_line, read_line_or_eof, some_line}
use assuan_library_rs.Transport.Channel
use assuan_library_rs.Server.Inquiry.{bytes_ahead}
use assuan_library_rs.Server.Fuel.{read_line_or_eof-Reads}
use assuan_library_rs.Client.Error.{ClientError}
use assuan_library_rs.Client.Core.{
  SessionCore, Outcome, expired, later, check_if, check, is_over, Received, Classified, classify,
  after_classify, after_read, checked, read,
}
use assuan_library_rs.Client.Inquiry.{complete}
use assuan_library_rs.Client.Transaction.{
  Event, inquire, payload, comment, status, end, finished, Transaction, Completion, Nexted,
  is_empty_line, after_line, after_received, event_from, next_event,
}
use assuan_library_rs.Client.Collect.{
  CollectLimits, Response, add_event, Collected, after_cancel, after_add, after_event, counted,
  after_next, collect_from,
}

after_classify-le :
    (core : SessionCore) (o : Classified) (received : Received)
    → (after_classify core o).1 ≡ ok received
    → bytes_ahead (after_classify core o).0.channel ≡ bytes_ahead core.channel
unfolding bytes_ahead
after_classify-le core (line, m, ok r) received e = refl
after_classify-le core (line, m, err x) received e = cc

after_read_fewer :
    (core : SessionCore) (o : Channel.Outcome (Option Bytes)) (received : Received) (n : ℕ)
    → ((bytes : Bytes) → o.1 ≡ ok (some bytes) → bytes_ahead o.0 < n)
    → (after_read core (some_line o)).1 ≡ ok received
    → bytes_ahead (after_read core (some_line o)).0.channel < n
after_read_fewer core (c, ok (some line)) received n k e =
    let moved = record (later core) { channel = c } in
    omega (arith, k line refl, after_classify-le moved (classify line core.machine) received e)
after_read_fewer core (c, ok none) received n k e = cc
after_read_fewer core (c, err x) received n k e = cc

check_if_fewer :
    (b : Bool) (core : SessionCore) (received : Received)
    → (checked (λ c. after_read c (read_line (expired c) c.channel)) (check_if b core)).1
      ≡ ok received
    → bytes_ahead
        (checked (λ c. after_read c (read_line (expired c) c.channel)) (check_if b core)).0.channel
      < bytes_ahead core.channel
unfolding read_line
check_if_fewer true core received e = cc
check_if_fewer false core received e =
    after_read_fewer core (read_line_or_eof (expired core) core.channel) received
      (bytes_ahead core.channel)
      (λ bytes. (read_line_or_eof-Reads (expired core) core.channel).fewer) e

pub read_fewer :
    (core : SessionCore) (received : Received)
    → (read core).1 ≡ ok received
    → bytes_ahead (read core).0.channel < bytes_ahead core.channel
unfolding read check
read_fewer core received e =
    check_if_fewer (core.io_uncertain || is_over core.machine.state) core received e

if_same : {A : Type 0} (b : Bool) (x y z : A) → x ≡ y → (if b then x else z) ≡ (if b then y else z)
if_same true x y z e = e
if_same false x y z e = refl

after_received_same :
    (next next' : SessionCore → Nexted) (completion : Completion) (o : Outcome Received)
    → ((received : Received) → o.1 ≡ ok received → next o.0 ≡ next' o.0)
    → after_received next completion o ≡ after_received next' completion o
after_received_same next next' completion (core, err e) k = refl
after_received_same next next' completion (core, ok received) k =
    if_same (is_empty_line received.kind) (next core) (next' core)
      (after_line completion core received) (k received refl)

-- With a round more than there are bytes ahead, the wait for an event never runs out of rounds: its
-- outcome is the same whatever a loop out of rounds would be.
pub event_from_enough :
    (stuck stuck' : SessionCore → Nexted) (fuel : ℕ) (completion : Completion) (core : SessionCore)
    → bytes_ahead core.channel < fuel
    → event_from stuck fuel completion core ≡ event_from stuck' fuel completion core
unfolding event_from
event_from_enough stuck stuck' zero completion core l = absurd (omega (arith, l))
event_from_enough stuck stuck' (suc fuel) completion core l =
    after_received_same (event_from stuck fuel completion) (event_from stuck' fuel completion)
      completion (read core)
      (λ received e.
        event_from_enough stuck stuck' fuel completion (read core).0
          (omega (arith, l, read_fewer core received e)))

module _ (next next' : Transaction → Response → Collected)
    (k : (t : Transaction) (r : Response) → next t r ≡ next' t r) where
  add_same :
      (t : Transaction) (o : Result ClientError Response)
      → after_add (next t) t o ≡ after_add (next' t) t o
  add_same t (err e) = refl
  add_same t (ok r) = k t r

  cancel_same :
      (t : Transaction) (r : Response) (o : Outcome (Unit {0}))
      → after_cancel (λ t'. next t' r) t o ≡ after_cancel (λ t'. next' t' r) t o
  cancel_same t r (core, err e) = refl
  cancel_same t r (core, ok u) = k (record t { core = core }) r

  event_same :
      (max : ℕ) (t : Transaction) (r : Response) (event : Event)
      → after_event next max t r event ≡ after_event next' max t r event
  event_same max t r (inquire keyword args) = cancel_same t r (complete true t.core)
  event_same max t r (finished code text) = refl
  event_same max t r (payload bytes) = add_same t (add_event max (payload bytes) r)
  event_same max t r (comment bytes) = add_same t (add_event max (comment bytes) r)
  event_same max t r (status keyword args) = add_same t (add_event max (status keyword args) r)
  event_same max t r end = add_same t (add_event max end r)

counted_same :
    (next next' : ℕ → Collected) (limits : CollectLimits) (t : Transaction) (events : Option ℕ)
    → ((n : ℕ) → events ≡ some n → n ≤ limits.max_events → next n ≡ next' n)
    → counted next limits t events ≡ counted next' limits t events
counted_same next next' limits t none k = refl
counted_same next next' limits t (some n) k = elim (Bool-cases (ltb limits.max_events n)) [
  | inl over ↦ rw over refl
  | inr fits ↦ rw fits (k n refl (ground arith))
]

sum-eq : (a b c : ℕ) → checked_add usize_max a b ≡ some c → c ≡ a + b
sum-eq a b c e = ground arith

next_same :
    (next next' : ℕ → Transaction → Response → Collected) (limits : CollectLimits) (events : ℕ)
    (r : Response) (o : Nexted)
    → (events < limits.max_events
        → (t : Transaction) (r' : Response) → next (events + 1) t r' ≡ next' (events + 1) t r')
    → after_next next limits events r o ≡ after_next next' limits events r o
next_same next next' limits events r (t, err e) k = refl
next_same next next' limits events r (t, ok none) k = refl
next_same next next' limits events r (t, ok (some event)) k =
    counted_same (λ n. after_event (next n) limits.max_bytes t r event)
      (λ n. after_event (next' n) limits.max_bytes t r event) limits t
      (checked_add usize_max events 1)
      (λ n e l.
        let same = sum-eq events 1 n e in
        rw same (
          event_same (next (events + 1)) (next' (events + 1)) (k (omega (arith, same, l)))
            limits.max_bytes t r event))

-- A collection counts an event in every round, so that with a round more than the events that are left
-- to its limit it never runs out of rounds, however many events the server sends: its outcome is the
-- same whatever a loop out of rounds would be.
pub collect_from_enough :
    (stuck stuck' : Transaction → Response → Collected) (limits : CollectLimits) (fuel events : ℕ)
    (t : Transaction) (r : Response)
    → limits.max_events < fuel + events
    → events ≤ limits.max_events
    → collect_from stuck limits fuel events t r ≡ collect_from stuck' limits fuel events t r
unfolding collect_from
collect_from_enough stuck stuck' limits zero events t r l m = absurd (omega (arith, l, m))
collect_from_enough stuck stuck' limits (suc fuel) events t r l m =
    next_same (collect_from stuck limits fuel) (collect_from stuck' limits fuel) limits events r
      (next_event (suc (bytes_ahead t.core.channel)) t)
      (λ more t' r'.
        collect_from_enough stuck stuck' limits fuel (events + 1) t' r' (omega (arith, l))
          (omega (arith, more)))
