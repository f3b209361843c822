-- ===== src/Server/Inquiry.antt =====
-- crates/assuan-server/src/inquiry.rs: data requested from the client. The wrappers of a payload by
-- its sensitivity hold the same bytes.
use assuan_library_rs.Prelude.{
  ℕ, zero, suc, ◌+◌, Option, none, some, List, [], ◌∷◌, Bytes, length, take, drop, ltb,
  if◌then◌else◌, Result, ok, err, usize_max, checked_add,
}
use assuan_library_rs.Protocol.Error.{ProtocolError, capacity_exceeded}
use assuan_library_rs.Protocol.Escape.{decode_data_in_place}
use assuan_library_rs.Protocol.Message
use assuan_library_rs.Protocol.Encode.{copy_at}
use assuan_library_rs.Protocol.State.Kinds.{RequestKind, StateError, not_ready, unusable}
use assuan_library_rs.Protocol.State.Server.{ServerMachine, receive_request}
use assuan_library_rs.Transport.Error.{TransportError}
use assuan_library_rs.Transport.Stream.{Stream, Read, got, read_failed, read_stalled}
use assuan_library_rs.Transport.Channel.{Channel, read_line, received_line}
use assuan_library_rs.Server.Error.{HandlerError, transport, protocol, state}
use assuan_library_rs.Server.Request.{request_kind}
use assuan_library_rs.Server.Context.{Io, Done, expired, later, abandon, send_line}

pub data InquiryOutcome : Type 0 where
  completed cancelled : InquiryOutcome

-- The guard, without what it borrows.
pub record Inquiry : Type 0 where
  pub limit : ℕ
  pub received : ℕ
  pub outcome : Option InquiryOutcome

abbrev pub begun : ℕ → Done (Unit {0}) → Done Inquiry
begun max (io, ok u) = (io, ok (record { limit = max; received = 0; outcome = none }))
begun max (io, err e) = (io, err e)

-- `ServerInquiry::begin`.
unfoldable pub begin : ℕ → Bytes → Bytes → Io → Done Inquiry
unfolding send_line
begin max keyword args io = begun max (send_line (Message.inquire keyword args) io)

abbrev pub Nexted : Type 0
Nexted = (Io × Inquiry) × Result HandlerError (Option Bytes)

abbrev pub failed : Io → Inquiry → HandlerError → Nexted
failed io q e = ((abandon io, q), err e)

-- The decoded bytes in the line's storage, from its third byte.
abbrev pub decoded_line : Channel → Bytes → Channel
decoded_line c bytes = record c {
  line = record c.line { storage = copy_at c.line.storage 2 bytes };
}

abbrev pub returned : Io → Inquiry → ℕ → Option Bytes → Nexted
returned io q len none = ((io, q), err (state unusable))
returned io q len (some line) = ((io, q), ok (some (take len (drop 2 line))))

-- `checked_add(len).filter(|total| total <= limit)`.
abbrev pub within : ℕ → ℕ → ℕ → Option ℕ
within received len max = elim (checked_add usize_max received len) [
  | none ↦ none
  | some total ↦ if ltb max total then none else some total
]

abbrev pub counted : Io → Inquiry → ℕ → Option ℕ → Nexted
counted io q len none = failed io q (HandlerError.limit capacity_exceeded)
counted io q len (some total) =
    returned io (record q { received = total }) len (received_line io.channel)

abbrev pub after_decode : Io → Inquiry → Result ProtocolError (Bytes × ℕ) → Nexted
after_decode io q (err e) = failed io q (protocol e)
after_decode io q (ok (bytes, len)) =
    let decoded = record io { channel = decoded_line io.channel bytes } in
    counted decoded q len (within q.received len q.limit)

-- A line that is neither END nor CAN; all but data continue the loop.
abbrev pub after_request :
    (Io → Nexted)
    → Io
    → Inquiry
    → Bytes
    → RequestKind
    → ServerMachine × Result StateError (Unit {0})
    → Nexted
after_request next io q line kind (m, err e) = failed (record io { machine = m }) q (state e)
after_request next io q line RequestKind.payload (m, ok u) =
    after_decode (record io { machine = m }) q (decode_data_in_place (drop 2 line))
after_request next io q line _ (m, ok u) = next (record io { machine = m })

abbrev pub after_kind :
    (Io → Nexted) → Io → Inquiry → Bytes → Result ProtocolError RequestKind → Nexted
after_kind next io q line (err e) = failed io q (protocol e)
after_kind next io q line (ok RequestKind.end) =
    ((io, record q { outcome = some completed }), ok none)
after_kind next io q line (ok RequestKind.can) =
    ((io, record q { outcome = some cancelled }), ok none)
after_kind next io q line (ok kind) =
    after_request next io q line kind (receive_request io.machine kind)

abbrev pub after_read :
    (Io → Nexted) → Io → Inquiry → Channel × Result TransportError Bytes → Nexted
after_read next io q (c, err e) = failed (record (later io) { channel = c }) q (transport e)
after_read next io q (c, ok line) =
    after_kind next (record (later io) { channel = c }) q line (request_kind line)

-- Every round takes a line off the input, and a line is a byte at least: `bytes_ahead` bounds the
-- rounds. `stuck` is what the loop is that has no round left.
unfoldable pub next_from : (Io → Nexted) → ℕ → Inquiry → Io → Nexted
next_from stuck zero q io = stuck io
next_from stuck (suc fuel) q io =
    after_read (next_from stuck fuel q) io q (read_line (expired io) io.channel)

abbrev pub next_loop : ℕ → Inquiry → Io → Nexted
next_loop fuel q io = next_from (λ io'. failed io' q (transport TransportError.timeout)) fuel q io

abbrev pub bytes_of_reads : List Read → ℕ
bytes_of_reads [] = 0
bytes_of_reads (got bytes ∷ reads) = length bytes + bytes_of_reads reads
bytes_of_reads (read_failed ∷ reads) = bytes_of_reads reads
bytes_of_reads (read_stalled ∷ reads) = bytes_of_reads reads

abbrev pub bytes_of_stream : Option Stream → ℕ
bytes_of_stream none = 0
bytes_of_stream (some s) = bytes_of_reads s.reads

unfoldable pub bytes_ahead : Channel → ℕ
bytes_ahead c = c.pending + bytes_of_stream c.stream

abbrev pub next_unless : Option InquiryOutcome → Inquiry → Io → Nexted
next_unless (some o) q io = ((io, q), ok none)
next_unless none q io = next_loop (suc (bytes_ahead io.channel)) q io

-- `ServerInquiry::next`.
unfoldable pub next : Inquiry → Io → Nexted
unfolding next_from abandon
next q io = next_unless q.outcome q io

abbrev pub ending : InquiryOutcome → RequestKind
ending completed = RequestKind.end
ending cancelled = RequestKind.can

abbrev pub after_finish :
    Io → InquiryOutcome → ServerMachine × Result StateError (Unit {0}) → Done InquiryOutcome
after_finish io o (m, ok u) = (record io { machine = m }, ok o)
after_finish io o (m, err e) = (abandon (record io { machine = m }), err (state e))

abbrev pub finish_with : Option InquiryOutcome → Io → Done InquiryOutcome
finish_with none io = (abandon io, err (state not_ready))
finish_with (some o) io = after_finish io o (receive_request io.machine (ending o))

-- `ServerInquiry::finish`; a guard that is dropped without it is `abandon`.
unfoldable pub finish : Inquiry → Io → Done InquiryOutcome
unfolding abandon
finish q io = finish_with q.outcome io
