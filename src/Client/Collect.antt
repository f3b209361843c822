-- ===== src/Client/Collect.antt =====
-- crates/assuan-client/src/response.rs: the events of a command collected, within limits. The two
-- sensitivities keep the same bytes; the model is that of the public response.
pub mod Bounds
pub mod Enough
use assuan_library_rs.Prelude.{
  ℕ, zero, suc, ◌+◌, Bool, true, false, Option, none, some, List, [], ◌∷◌, ◌++◌, Bytes, length, ltb,
  ◌==◌, ◌||◌, if◌then◌else◌, Result, ok, err, usize_max, checked_add, ◌>>=◌, ok_or,
}
use assuan_library_rs.Protocol.Error.{LimitError, capacity_exceeded, length_overflow}
use assuan_library_rs.Server.Inquiry.{bytes_ahead}
use assuan_library_rs.Client.Error.{ClientError, limit, invalid_options}
use assuan_library_rs.Client.Core.{SessionCore, Outcome}
use assuan_library_rs.Client.Inquiry.{complete}
use assuan_library_rs.Client.Transaction.{
  Event, inquire, payload, comment, status, end, finished, Transaction, Nexted, next_event, dropped,
  finish,
}

pub record CollectLimits : Type 0 where
  pub max_bytes : ℕ
  pub max_events : ℕ

unfoldable pub new : ℕ → ℕ → Result ClientError CollectLimits
new max_bytes max_events =
    if (max_bytes == 0) || (max_events == 0)
    then err invalid_options
    else ok (record { max_bytes = max_bytes; max_events = max_events })

pub record Response : Type 0 where
  pub data_bytes : Bytes
  pub statuses : List (Bytes × Bytes)
  pub comments : List Bytes

abbrev pub status_bytes : List (Bytes × Bytes) → ℕ
status_bytes [] = 0
status_bytes ((keyword, args) ∷ statuses) =
    (length keyword + length args + 1) + status_bytes statuses

abbrev pub comment_bytes : List Bytes → ℕ
comment_bytes [] = 0
comment_bytes (bytes ∷ comments) = length bytes + comment_bytes comments

abbrev pub retained : Response → ℕ
retained r = length r.data_bytes + status_bytes r.statuses + comment_bytes r.comments

abbrev pub room : Option ℕ → ℕ → Result ClientError (Unit {0})
room none max = err (limit capacity_exceeded)
room (some total) max = if ltb max total then err (limit capacity_exceeded) else ok tt

unfoldable pub ensure_room : ℕ → Response → ℕ → Result ClientError (Unit {0})
ensure_room add r max = room (checked_add usize_max (retained r) add) max

-- What an event adds to the response.
unfoldable pub add_event : ℕ → Event → Response → Result ClientError Response
unfolding ensure_room
add_event max (payload bytes) r =
    ensure_room (length bytes) r max >>= λ u. ok (record r { data_bytes = r.data_bytes ++ bytes })
add_event max (status keyword args) r =
    ok_or (checked_add usize_max (length keyword) (length args)) (limit length_overflow)
    >>= λ bytes. ok_or (checked_add usize_max bytes 1) (limit length_overflow) >>= λ bytes'.
        ensure_room bytes' r max >>= λ u.
        ok (record r { statuses = r.statuses ++ (keyword, args) ∷ [] })
add_event max (comment bytes) r =
    ensure_room (length bytes) r max >>= λ u. ok (record r { comments = r.comments ++ bytes ∷ [] })
add_event max _ r = ok r

abbrev pub Collected : Type 0
Collected = Outcome Response

-- A failure drops the transaction.
abbrev pub failed : SessionCore → ClientError → Collected
failed core e = (dropped core, err e)

abbrev pub ended : Response → Outcome (Unit {0}) → Collected
ended r (core, ok u) = (core, ok r)
ended r (core, err e) = (core, err e)

abbrev pub after_cancel : (Transaction → Collected) → Transaction → Outcome (Unit {0}) → Collected
after_cancel next t (core, err e) = failed core e
after_cancel next t (core, ok u) = next (record t { core = core })

abbrev pub after_add :
    (Response → Collected) → Transaction → Result ClientError Response → Collected
after_add next t (err e) = failed t.core e
after_add next t (ok r) = next r

-- What an event does to the collection, once it is counted.
abbrev pub after_event :
    (Transaction → Response → Collected) → ℕ → Transaction → Response → Event → Collected
after_event next max t r (inquire keyword args) =
    after_cancel (λ t'. next t' r) t (complete true t.core)
after_event next max t r (finished code text) = ended r (finish t)
after_event next max t r event = after_add (next t) t (add_event max event r)

abbrev pub counted : (ℕ → Collected) → CollectLimits → Transaction → Option ℕ → Collected
counted next limits t none = failed t.core (limit length_overflow)
counted next limits t (some events) =
    if ltb limits.max_events events then failed t.core (limit capacity_exceeded) else next events

abbrev pub after_next :
    (ℕ → Transaction → Response → Collected) → CollectLimits → ℕ → Response → Nexted → Collected
after_next next limits events r (t, err e) = failed t.core e
after_next next limits events r (t, ok none) = (dropped t.core, ok r)
after_next next limits events r (t, ok (some event)) =
    counted (λ events'. after_event (next events') limits.max_bytes t r event) limits t
      (checked_add usize_max events 1)

-- The loop over the events; `stuck` is what it is when it has no round left.
unfoldable pub collect_from :
    (Transaction → Response → Collected)
    → CollectLimits
    → ℕ
    → ℕ
    → Transaction
    → Response
    → Collected
unfolding next_event dropped finish complete add_event
collect_from stuck limits zero events t r = stuck t r
collect_from stuck limits (suc fuel) events t r =
    after_next (collect_from stuck limits fuel) limits events r
      (next_event (suc (bytes_ahead t.core.channel)) t)

abbrev pub nothing : Response
nothing = record { data_bytes = []; statuses = []; comments = [] }

-- `collect_transaction`: a round counts an event, so one more than the limit on the events is enough.
unfoldable pub collect_transaction : CollectLimits → Transaction → Collected
unfolding collect_from dropped
collect_transaction limits t =
    collect_from (λ t' r. failed t'.core (limit capacity_exceeded)) limits (suc limits.max_events) 0
      t nothing
