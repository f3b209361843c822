-- ===== src/Client/Core/Unusable.antt =====
-- crates/assuan-client/src/session.rs: the core after a failure of a read or a write.
use assuan_library_rs.Prelude.{
  ◌≡◌, refl, ap, Bool, true, false, ◌||◌, none, List, [], ◌∷◌, Bytes, arith, Result, ok, err,
}
use assuan_library_rs.Protocol.State.Kinds.{unusable}
use assuan_library_rs.Protocol.State.Client.{ClientMachine, ClientState}
use assuan_library_rs.Protocol.State.Client
use assuan_library_rs.Transport.Error.{TransportError}
use assuan_library_rs.Transport.Channel.{Channel, read_line, write_line, close, clear}
use assuan_library_rs.Client.Error.{ClientError, state}
use assuan_library_rs.Client.Core.{
  SessionCore, Outcome, expired, later, stored, invalidate, is_over, check_if, check, Received,
  Classified, classify, after_classify, after_read, checked, read, after_write, write,
}

-- The stream is dropped, and the machine takes no more events.
pub record IsUnusable (core : SessionCore) : Type 0 where
  pub no_stream : core.channel.stream ≡ none
  pub over : is_over core.machine.state ≡ true

machine-invalidate : (m : ClientMachine) → is_over (Client.invalidate m).state ≡ true
unfolding Client.invalidate
machine-invalidate m = ground arith

invalidate-IsUnusable : (core : SessionCore) → IsUnusable (invalidate core)
unfolding invalidate close clear
invalidate-IsUnusable core = record { no_stream = refl; over = machine-invalidate core.machine }

unless-IsUnusable :
    (b : Bool) (core : SessionCore) (e : ClientError)
    → (check_if b core).1 ≡ err e
    → IsUnusable (check_if b core).0
unless-IsUnusable true core x e = invalidate-IsUnusable core
unless-IsUnusable false core x e = cc

check-IsUnusable :
    (core : SessionCore) (e : ClientError) → (check core).1 ≡ err e → IsUnusable (check core).0
unfolding check
check-IsUnusable core e = unless-IsUnusable (core.io_uncertain || is_over core.machine.state) core e

after_classify-IsUnusable :
    (core : SessionCore) (o : Classified) (e : ClientError)
    → (after_classify core o).1 ≡ err e
    → IsUnusable (after_classify core o).0
after_classify-IsUnusable core (line, m, ok received) x e = cc
after_classify-IsUnusable core (line, m, err y) x e =
    invalidate-IsUnusable
      (record core { channel = stored core.channel line; machine = m; io_uncertain = true })

after_read-IsUnusable :
    (core : SessionCore) (o : Channel × Result TransportError Bytes) (e : ClientError)
    → (after_read core o).1 ≡ err e
    → IsUnusable (after_read core o).0
after_read-IsUnusable core (c, err y) x e =
    invalidate-IsUnusable (record (later core) { channel = c; io_uncertain = true })
after_read-IsUnusable core (c, ok line) x e =
    after_classify-IsUnusable (record (later core) { channel = c }) (classify line core.machine) x e

after_write-IsUnusable :
    (core : SessionCore) (o : Channel × Result TransportError (Unit {0})) (e : ClientError)
    → (after_write core o).1 ≡ err e
    → IsUnusable (after_write core o).0
after_write-IsUnusable core (c, err y) x e =
    invalidate-IsUnusable (record (later core) { channel = c; io_uncertain = true })
after_write-IsUnusable core (c, ok u) x e = cc

checked-IsUnusable :
    {A : Type 0} (next : SessionCore → Outcome A) (o : Outcome (Unit {0})) (e : ClientError)
    → ((x : ClientError) → o.1 ≡ err x → IsUnusable o.0)
    → ((core : SessionCore) (x : ClientError) → (next core).1 ≡ err x → IsUnusable (next core).0)
    → (checked next o).1 ≡ err e
    → IsUnusable (checked next o).0
checked-IsUnusable next (core, ok u) x k n e = n core x e
checked-IsUnusable next (core, err y) x k n e = k y refl

-- A read or a write of the client.
pub data Call : Type 0 where
  reading : Call
  writing : Bytes → Call

abbrev forget : Outcome Received → Outcome (Unit {0})
forget (core, ok received) = (core, ok tt)
forget (core, err e) = (core, err e)

abbrev pub perform : Call → SessionCore → Outcome (Unit {0})
perform reading core = forget (read core)
perform (writing bytes) core = write bytes core

forget-IsUnusable :
    (o : Outcome Received) (e : ClientError)
    → ((x : ClientError) → o.1 ≡ err x → IsUnusable o.0)
    → (forget o).1 ≡ err e
    → IsUnusable (forget o).0
forget-IsUnusable (core, ok received) x k e = cc
forget-IsUnusable (core, err y) x k e = k y refl

read-IsUnusable :
    (core : SessionCore) (e : ClientError) → (read core).1 ≡ err e → IsUnusable (read core).0
unfolding read
read-IsUnusable core x e =
    checked-IsUnusable (λ c. after_read c (read_line (expired c) c.channel)) (check core) x
      (check-IsUnusable core) (λ c. after_read-IsUnusable c (read_line (expired c) c.channel)) e

perform-IsUnusable :
    (call : Call) (core : SessionCore) (e : ClientError)
    → (perform call core).1 ≡ err e
    → IsUnusable (perform call core).0
unfolding write
perform-IsUnusable reading core x e = forget-IsUnusable (read core) x (read-IsUnusable core) e
perform-IsUnusable (writing bytes) core x e =
    checked-IsUnusable (λ c. after_write c (write_line (expired c) c.channel bytes)) (check core) x
      (check-IsUnusable core)
      (λ c. after_write-IsUnusable c (write_line (expired c) c.channel bytes)) e

or_true : (a : Bool) {b : Bool} → b ≡ true → (a || b) ≡ true
or_true true e = refl
or_true false e = e

check_over :
    (core : SessionCore)
    → is_over core.machine.state ≡ true
    → check core ≡ (invalidate core, err (state unusable))
unfolding check
check_over core over = ap (λ b. check_if b core) (or_true core.io_uncertain over)

refused :
    (call : Call) (core : SessionCore)
    → is_over core.machine.state ≡ true
    → perform call core ≡ (invalidate core, err (state unusable))
unfolding read write
refused reading core over =
    ap (λ z. forget (checked (λ c. after_read c (read_line (expired c) c.channel)) z))
      (check_over core over)
refused (writing bytes) core over =
    ap (checked (λ c. after_write c (write_line (expired c) c.channel bytes)))
      (check_over core over)

abbrev pub perform_all : List Call → SessionCore → SessionCore
perform_all [] core = core
perform_all (call ∷ calls) core = perform_all calls (perform call core).0

refused_all :
    (calls : List Call) (core : SessionCore) → IsUnusable core → IsUnusable (perform_all calls core)
refused_all [] core u = u
refused_all (call ∷ calls) core u =
    refused_all calls (perform call core).0
      (rw (refused call core u.over) (invalidate-IsUnusable core))

-- Once a read or a write of the client has failed, whatever the failure was, the stream is gone and
-- stays so: after any further calls, every next one fails as unusable, and none reaches a stream.
pub perform-refused :
    (call : Call) (core : SessionCore) (e : ClientError) (calls : List Call) (last : Call)
    → (perform call core).1 ≡ err e
    → IsUnusable (perform_all calls (perform call core).0)
      × ((perform last (perform_all calls (perform call core).0)).1 ≡ err (state unusable))
perform-refused call core e calls last failed =
    let u = refused_all calls (perform call core).0 (perform-IsUnusable call core e failed) in
    (u, ap (λ z. z.1) (refused last (perform_all calls (perform call core).0) u.over))
