-- ===== src/Client/Collect/Bounds.antt =====
-- crates/assuan-client/src/response.rs: what a collection may hold.
use assuan_library_rs.Prelude.{
  ℕ, zero, suc, ◌+◌, ◌≤◌, ◌≡◌, refl, inl, inr, true, arith, Option, none, some, List, [], ◌∷◌, ◌++◌,
  Bytes, length, length-append, ltb, Result, ok, err, usize_max, checked_add, ◌>>=◌, ok_or,
  ok_or-eq-ok, Bool-cases, Option-cases,
}
use assuan_library_rs.Protocol.Error.{capacity_exceeded, length_overflow}
use assuan_library_rs.Server.Inquiry.{bytes_ahead}
use assuan_library_rs.Client.Error.{ClientError, limit}
use assuan_library_rs.Client.Core.{Outcome}
use assuan_library_rs.Client.Inquiry.{complete}
use assuan_library_rs.Client.Transaction.{
  Event, inquire, payload, comment, status, end, finished, Transaction, Nexted, next_event, finish,
}
use assuan_library_rs.Client.Collect.{
  CollectLimits, Response, status_bytes, comment_bytes, retained, ensure_room, add_event, Collected,
  failed, ended, after_cancel, after_add, after_event, counted, after_next, collect_from, nothing,
  collect_transaction,
}

ensure_room-le :
    (add : ℕ) (r : Response) (max : ℕ) → ensure_room add r max ≡ ok tt → retained r + add ≤ max
unfolding ensure_room
ensure_room-le add r max h = ground arith

status_bytes-append :
    (xs ys : List (Bytes × Bytes)) → status_bytes (xs ++ ys) ≡ status_bytes xs + status_bytes ys
status_bytes-append [] ys = omega arith
status_bytes-append ((keyword, args) ∷ xs) ys = omega (arith, status_bytes-append xs ys)

comment_bytes-append :
    (xs ys : List Bytes) → comment_bytes (xs ++ ys) ≡ comment_bytes xs + comment_bytes ys
comment_bytes-append [] ys = omega arith
comment_bytes-append (x ∷ xs) ys = omega (arith, comment_bytes-append xs ys)

abbrev Holds : ℕ → Result ClientError Response → Type 0
Holds max (ok r) = retained r ≤ max
Holds max (err e) = Unit

then-Holds :
    (max : ℕ) (m : Result ClientError (Unit {0})) (r : Response)
    → (m ≡ ok tt → retained r ≤ max)
    → Holds max (m >>= λ u. ok r)
then-Holds max (ok u) r k = k refl
then-Holds max (err e) r k = tt

sum-le : (a b c : ℕ) → checked_add usize_max a b ≡ some c → c ≡ a + b
sum-le a b c e = ground arith

status-Holds :
    (max : ℕ) (keyword args : Bytes) (r : Response) (sum : Result ClientError ℕ)
    → ((n : ℕ) → sum ≡ ok n → n ≡ length keyword + length args)
    → Holds max (
        sum >>= λ bytes. ok_or (checked_add usize_max bytes 1) (limit length_overflow) >>= λ bytes'.
        ensure_room bytes' r max >>= λ u.
        ok (record r { statuses = r.statuses ++ (keyword, args) ∷ [] }))
status-Holds max keyword args r (err e) k = tt
status-Holds max keyword args r (ok n) k = elim (Option-cases (checked_add usize_max n 1)) [
  | inl none_left ↦ rw none_left tt
  | inr (m, e) ↦ rw e (
      then-Holds max (ensure_room m r max)
        (record r { statuses = r.statuses ++ (keyword, args) ∷ [] })
        (λ h. omega (
          arith,
          ensure_room-le m r max h,
          sum-le n 1 m e,
          k n refl,
          status_bytes-append r.statuses ((keyword, args) ∷ []),
        )))
]

add_event-Holds :
    (max : ℕ) (event : Event) (r : Response) → retained r ≤ max → Holds max (add_event max event r)
unfolding add_event
add_event-Holds max (payload bytes) r l =
    then-Holds max (ensure_room (length bytes) r max)
      (record r { data_bytes = r.data_bytes ++ bytes })
      (λ h. omega (arith, ensure_room-le (length bytes) r max h, length-append r.data_bytes bytes))
add_event-Holds max (status keyword args) r l =
    status-Holds max keyword args r
      (ok_or (checked_add usize_max (length keyword) (length args)) (limit length_overflow))
      (λ n e. sum-le (length keyword) (length args) n (
        ok_or-eq-ok (checked_add usize_max (length keyword) (length args)) (limit length_overflow)
          e))
add_event-Holds max (comment bytes) r l =
    then-Holds max (ensure_room (length bytes) r max)
      (record r { comments = r.comments ++ bytes ∷ [] })
      (λ h. omega (
        arith,
        ensure_room-le (length bytes) r max h,
        comment_bytes-append r.comments (bytes ∷ []),
      ))
add_event-Holds max (inquire keyword args) r l = l
add_event-Holds max end r l = l
add_event-Holds max (finished code text) r l = l

ended-Holds :
    (max : ℕ) (r : Response) (o : Outcome (Unit {0})) → retained r ≤ max → Holds max (ended r o).1
ended-Holds max r (core, ok u) l = l
ended-Holds max r (core, err e) l = tt

after_cancel-Holds :
    (max : ℕ) (next : Transaction → Collected) (t : Transaction) (o : Outcome (Unit {0}))
    → ((t' : Transaction) → Holds max (next t').1)
    → Holds max (after_cancel next t o).1
after_cancel-Holds max next t (core, err e) k = tt
after_cancel-Holds max next t (core, ok u) k = k (record t { core = core })

after_add-Holds :
    (max : ℕ) (next : Response → Collected) (t : Transaction) (o : Result ClientError Response)
    → Holds max o
    → ((r : Response) → retained r ≤ max → Holds max (next r).1)
    → Holds max (after_add next t o).1
after_add-Holds max next t (err e) h k = tt
after_add-Holds max next t (ok r) h k = k r h

after_event-Holds :
    (max : ℕ) (next : Transaction → Response → Collected) (t : Transaction) (r : Response)
    (event : Event)
    → retained r ≤ max
    → ((t' : Transaction) (r' : Response) → retained r' ≤ max → Holds max (next t' r').1)
    → Holds max (after_event next max t r event).1
after_event-Holds max next t r (inquire keyword args) l k =
    after_cancel-Holds max (λ t'. next t' r) t (complete true t.core) (λ t'. k t' r l)
after_event-Holds max next t r (finished code text) l k = ended-Holds max r (finish t) l
after_event-Holds max next t r (payload bytes) l k =
    after_add-Holds max (next t) t (add_event max (payload bytes) r)
      (add_event-Holds max (payload bytes) r l) (k t)
after_event-Holds max next t r (comment bytes) l k =
    after_add-Holds max (next t) t (add_event max (comment bytes) r)
      (add_event-Holds max (comment bytes) r l) (k t)
after_event-Holds max next t r (status keyword args) l k =
    after_add-Holds max (next t) t (add_event max (status keyword args) r)
      (add_event-Holds max (status keyword args) r l) (k t)
after_event-Holds max next t r end l k =
    after_add-Holds max (next t) t (add_event max end r) (add_event-Holds max end r l) (k t)

counted-Holds :
    (max : ℕ) (next : ℕ → Collected) (limits : CollectLimits) (t : Transaction) (events : Option ℕ)
    → ((n : ℕ) → Holds max (next n).1)
    → Holds max (counted next limits t events).1
counted-Holds max next limits t none k = tt
counted-Holds max next limits t (some n) k = elim (Bool-cases (ltb limits.max_events n)) [
  | inl over ↦ rw over tt
  | inr fits ↦ rw fits (k n)
]

after_next-Holds :
    (next : ℕ → Transaction → Response → Collected) (limits : CollectLimits) (events : ℕ)
    (r : Response) (o : Nexted)
    → retained r ≤ limits.max_bytes
    → ((n : ℕ) (t : Transaction) (r' : Response)
        → retained r' ≤ limits.max_bytes
        → Holds limits.max_bytes (next n t r').1)
    → Holds limits.max_bytes (after_next next limits events r o).1
after_next-Holds next limits events r (t, err e) l k = tt
after_next-Holds next limits events r (t, ok none) l k = l
after_next-Holds next limits events r (t, ok (some event)) l k =
    counted-Holds limits.max_bytes (λ n. after_event (next n) limits.max_bytes t r event) limits t
      (checked_add usize_max events 1)
      (λ n. after_event-Holds limits.max_bytes (next n) t r event l (k n))

collect_from-Holds :
    (stuck : Transaction → Response → Collected) (limits : CollectLimits) (fuel events : ℕ)
    (t : Transaction) (r : Response)
    → retained r ≤ limits.max_bytes
    → ((t' : Transaction) (r' : Response)
        → retained r' ≤ limits.max_bytes
        → Holds limits.max_bytes (stuck t' r').1)
    → Holds limits.max_bytes (collect_from stuck limits fuel events t r).1
unfolding collect_from
collect_from-Holds stuck limits zero events t r l k = k t r l
collect_from-Holds stuck limits (suc fuel) events t r l k =
    after_next-Holds (collect_from stuck limits fuel) limits events r
      (next_event (suc (bytes_ahead t.core.channel)) t) l
      (λ n t' r' l'. collect_from-Holds stuck limits fuel n t' r' l' k)

-- A response that is collected keeps to its limit, whatever the server sends: its data, its status
-- lines, with a byte more for each, and its comments together are no more than `max_bytes`.
pub collect_transaction-le :
    (limits : CollectLimits) (t : Transaction) (r : Response)
    → (collect_transaction limits t).1 ≡ ok r
    → retained r ≤ limits.max_bytes
unfolding collect_transaction
collect_transaction-le limits t r e =
    let held : Holds limits.max_bytes (collect_transaction limits t).1 =
      collect_from-Holds (λ t' r'. failed t'.core (limit capacity_exceeded)) limits
        (suc limits.max_events) 0 t nothing (omega arith) (λ t' r' l. tt) in
    rw e at held
