-- ===== src/Server/Stable/Programs.antt =====
-- Inquiries, and the programs that hold them, for a property that the steps of the context keep.
use assuan_library_rs.Prelude.{
  ℕ, zero, suc, ◌≡◌, refl, Bool, Option, none, some, Bytes, drop, Result, ok, err,
}
use assuan_library_rs.Protocol.Escape.{decode_data_in_place}
use assuan_library_rs.Protocol.Error.{ProtocolError}
use assuan_library_rs.Protocol.Message
use assuan_library_rs.Protocol.State.Kinds.{kind, RequestKind, StateError}
use assuan_library_rs.Protocol.State.Server.{ServerMachine, receive_request}
use assuan_library_rs.Transport.Error.{TransportError}
use assuan_library_rs.Transport.Channel.{
  Channel, Outcome, some_line, read_line_or_eof, read_line, received_line,
}
use assuan_library_rs.Server.Request.{request_kind}
use assuan_library_rs.Server.Context.{
  Io, Done, expired, later, abandon, send_line, send_status, send_data,
}
use assuan_library_rs.Server.Inquiry.{
  Inquiry, InquiryOutcome, Nexted, begun, begin, decoded_line, returned, within, counted,
  after_decode, after_request, after_kind, after_read, next_loop, next_from, bytes_ahead,
  next_unless, next, ending, after_finish, finish_with, finish,
}
use assuan_library_rs.Server.Program.{
  Program, Dialog, done, late, state, set_state, status, payload, inquire, next_data, finished,
  dropped, forgotten, stalled, Ran, run_program, run_dialog,
}
use assuan_library_rs.Server.Stable.{
  IsStable, send_line_stable, send_status_stable, send_data_stable,
}

begun-io : (max : ℕ) (o : Done (Unit {0})) → (begun max o).0 ≡ o.0
begun-io max (io, ok u) = refl
begun-io max (io, err e) = refl

returned-io :
    (io : Io) (q : Inquiry) (len : ℕ) (line : Option Bytes) → (returned io q len line).0.0 ≡ io
returned-io io q len none = refl
returned-io io q len (some line) = refl

some_line-channel : (o : Outcome (Option Bytes)) → (some_line o).0 ≡ o.0
some_line-channel (c, ok (some bytes)) = refl
some_line-channel (c, ok none) = refl
some_line-channel (c, err e) = refl

pub read_line-channel :
    (expired : Bool) (c : Channel) → (read_line expired c).0 ≡ (read_line_or_eof expired c).0
unfolding read_line
read_line-channel expired c = some_line-channel (read_line_or_eof expired c)

module _ (P : Io → Type 0) (stable : IsStable P) where
  begin_stable : (max : ℕ) (keyword args : Bytes) (io : Io) → P io → P (begin max keyword args io).0
  unfolding begin kind
  begin_stable max keyword args io p =
      rw (begun-io max (send_line (Message.inquire keyword args) io))
        (send_line_stable P stable (Message.inquire keyword args) io refl p)

  counted_stable :
      (io : Io) (q : Inquiry) (len : ℕ) (total : Option ℕ) → P io → P (counted io q len total).0.0
  counted_stable io q len none p = stable.abandons io p
  counted_stable io q len (some total) p =
      rw (returned-io io (record q { received = total }) len (received_line io.channel)) p

  after_decode_stable :
      (io : Io) (q : Inquiry) (r : Result ProtocolError (Bytes × ℕ))
      → P io
      → P (after_decode io q r).0.0
  after_decode_stable io q (err e) p = stable.abandons io p
  after_decode_stable io q (ok (bytes, len)) p =
      counted_stable (record io { channel = decoded_line io.channel bytes }) q len
        (within q.received len q.limit) (stable.decodes io bytes p)

  after_request_stable :
      (next : Io → Nexted) (io : Io) (q : Inquiry) (line : Bytes) (kind : RequestKind)
      (o : ServerMachine × Result StateError (Unit {0}))
      → ((io' : Io) → P io' → P (next io').0.0)
      → P (record io { machine = o.0 })
      → P (after_request next io q line kind o).0.0
  after_request_stable next io q line kind (m, err e) k p =
      stable.abandons (record io { machine = m }) p
  after_request_stable next io q line RequestKind.payload (m, ok u) k p =
      after_decode_stable (record io { machine = m }) q (decode_data_in_place (drop 2 line)) p
  after_request_stable next io q line RequestKind.command (m, ok u) k p =
      k (record io { machine = m }) p
  after_request_stable next io q line RequestKind.end (m, ok u) k p =
      k (record io { machine = m }) p
  after_request_stable next io q line RequestKind.can (m, ok u) k p =
      k (record io { machine = m }) p
  after_request_stable next io q line RequestKind.comment (m, ok u) k p =
      k (record io { machine = m }) p
  after_request_stable next io q line RequestKind.empty (m, ok u) k p =
      k (record io { machine = m }) p

  after_kind_stable :
      (next : Io → Nexted) (io : Io) (q : Inquiry) (line : Bytes)
      (r : Result ProtocolError RequestKind)
      → ((io' : Io) → P io' → P (next io').0.0)
      → P io
      → P (after_kind next io q line r).0.0
  after_kind_stable next io q line (err e) k p = stable.abandons io p
  after_kind_stable next io q line (ok RequestKind.end) k p = p
  after_kind_stable next io q line (ok RequestKind.can) k p = p
  after_kind_stable next io q line (ok RequestKind.payload) k p =
      after_request_stable next io q line RequestKind.payload
        (receive_request io.machine RequestKind.payload) k
        (stable.requests io RequestKind.payload p)
  after_kind_stable next io q line (ok RequestKind.command) k p =
      after_request_stable next io q line RequestKind.command
        (receive_request io.machine RequestKind.command) k
        (stable.requests io RequestKind.command p)
  after_kind_stable next io q line (ok RequestKind.comment) k p =
      after_request_stable next io q line RequestKind.comment
        (receive_request io.machine RequestKind.comment) k
        (stable.requests io RequestKind.comment p)
  after_kind_stable next io q line (ok RequestKind.empty) k p =
      after_request_stable next io q line RequestKind.empty
        (receive_request io.machine RequestKind.empty) k (stable.requests io RequestKind.empty p)

  after_read_stable :
      (next : Io → Nexted) (io : Io) (q : Inquiry) (o : Channel × Result TransportError Bytes)
      → ((io' : Io) → P io' → P (next io').0.0)
      → P (record (later io) { channel = o.0 })
      → P (after_read next io q o).0.0
  after_read_stable next io q (c, err e) k p = stable.abandons (record (later io) { channel = c }) p
  after_read_stable next io q (c, ok line) k p =
      after_kind_stable next (record (later io) { channel = c }) q line (request_kind line) k p

  next_loop_stable : (fuel : ℕ) (q : Inquiry) (io : Io) → P io → P (next_loop fuel q io).0.0
  unfolding next_from
  next_loop_stable zero q io p = stable.abandons io p
  next_loop_stable (suc fuel) q io p =
      after_read_stable (next_loop fuel q) io q (read_line (expired io) io.channel)
        (next_loop_stable fuel q)
        (rw (read_line-channel (expired io) io.channel) (stable.reads io p))

  next_unless_stable :
      (o : Option InquiryOutcome) (q : Inquiry) (io : Io) → P io → P (next_unless o q io).0.0
  next_unless_stable (some o) q io p = p
  next_unless_stable none q io p = next_loop_stable (suc (bytes_ahead io.channel)) q io p

  next_stable : (q : Inquiry) (io : Io) → P io → P (next q io).0.0
  unfolding next
  next_stable q io p = next_unless_stable q.outcome q io p

  after_finish_stable :
      (io : Io) (outcome : InquiryOutcome) (o : ServerMachine × Result StateError (Unit {0}))
      → P (record io { machine = o.0 })
      → P (after_finish io outcome o).0
  after_finish_stable io outcome (m, ok u) p = p
  after_finish_stable io outcome (m, err e) p = stable.abandons (record io { machine = m }) p

  finish_with_stable : (o : Option InquiryOutcome) (io : Io) → P io → P (finish_with o io).0
  finish_with_stable none io p = stable.abandons io p
  finish_with_stable (some o) io p =
      after_finish_stable io o (receive_request io.machine (ending o))
        (stable.requests io (ending o) p)

  finish_stable : (q : Inquiry) (io : Io) → P io → P (finish q io).0
  unfolding finish
  finish_stable q io p = finish_with_stable q.outcome io p

  -- Whatever a handler does with its context, it keeps what every step of the context keeps.
  mutual
    unfolding run_program

    pub run_program_stable :
        {S : Type 0} (max : ℕ) (program : Program S) (io : Io) (s : S)
        → P io
        → P (run_program max program io s).0
    run_program_stable max (done r) io s p = p
    run_program_stable max late io s p = p
    run_program_stable max (state k) io s p = run_program_stable max (k s) io s p
    run_program_stable max (set_state s' k) io s p = run_program_stable max k io s' p
    run_program_stable max (status keyword args k) io s p =
        let (io', r) = send_status keyword args io in
        run_program_stable max (k r) io' s (send_status_stable P stable keyword args io p)
    run_program_stable max (payload bytes k) io s p =
        let (io', r) = send_data bytes io in
        run_program_stable max (k r) io' s (send_data_stable P stable bytes io p)
    run_program_stable {S} max (inquire keyword args fail k) io s p =
        let (io', r) = begin max keyword args io in
        let p' = begin_stable max keyword args io p in
        elim r
          as (λ x.
            P
              (elim x as (λ y. Ran S) [
                | ok q ↦ run_dialog max k q io' s
                | err e ↦ run_program max (fail e) io' s
              ]).0) [
                | ok q ↦ run_dialog_stable max k q io' s p'
                | err e ↦ run_program_stable max (fail e) io' s p'
              ]

    run_dialog_stable :
        {S : Type 0} (max : ℕ) (dialog : Dialog S) (q : Inquiry) (io : Io) (s : S)
        → P io
        → P (run_dialog max dialog q io s).0
    run_dialog_stable max (next_data k) q io s p =
        let ((io', q'), r) = next q io in run_dialog_stable max (k r) q' io' s (next_stable q io p)
    run_dialog_stable max (finished k) q io s p =
        let (io', r) = finish q io in run_program_stable max (k r) io' s (finish_stable q io p)
    run_dialog_stable max (dropped k) q io s p =
        run_program_stable max k (abandon io) s (stable.abandons io p)
    run_dialog_stable max (forgotten k) q io s p = run_program_stable max k io s p
    run_dialog_stable max stalled q io s p = stable.abandons io p
