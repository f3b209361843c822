-- ===== src/Server/Stable.antt =====
-- crates/assuan-server/src/session.rs: properties of the connection that the steps of the context
-- keep, carried over to handlers and to what the session does around them.
pub mod Programs
pub mod Serves
pub mod Rounds
use assuan_library_rs.Prelude.{
  ℕ, zero, suc, ◌≡◌, refl, ap, Bool, true, false, Option, none, some, List, [], ◌∷◌, ◌++◌, Bytes,
  length, take, drop, replicate, is_empty, ltb, ◌-◌, ◌+◌, if◌then◌else◌, Result, ok, err,
  Bool-cases, inl, inr,
}
use assuan_library_rs.Protocol.Escape.{decode_data_in_place}
use assuan_library_rs.Protocol.Error.{ProtocolError}
use assuan_library_rs.Protocol.Message.{ServerLine}
use assuan_library_rs.Protocol.Message
use assuan_library_rs.Protocol.Encode.{max_line_bytes, encode_response, encode_data_chunk}
use assuan_library_rs.Protocol.State.Kinds.{LineKind, RequestKind, StateError, kind}
use assuan_library_rs.Protocol.State.Server.{ServerMachine, receive_request, send_response}
use assuan_library_rs.Transport.Error.{TransportError}
use assuan_library_rs.Transport.Channel.{Channel, read_line_or_eof, write_line}
use assuan_library_rs.Server.Error.{HandlerError}
use assuan_library_rs.Server.Request.{request_kind}
use assuan_library_rs.Server.Context.{
  Io, Done, expired, later, abandon, after_response, after_write, after_encode, write, send_line,
  send_status, after_chunk, data_loop, send_data,
}
use assuan_library_rs.Server.Inquiry.{decoded_line}

abbrev pub is_final : LineKind → Bool
is_final LineKind.okay = true
is_final LineKind.error = true
is_final _ = false

-- The steps that a context takes on its connection: every line but the final ones, which only
-- `finalize` sends.
pub record IsStable (P : Io → Type 0) : Type 0 where
  pub responds :
      (io : Io) (event : LineKind)
      → is_final event ≡ false
      → P io
      → P (record io { machine = (send_response io.machine event).0 })
  pub requests :
      (io : Io) (event : RequestKind)
      → P io
      → P (record io { machine = (receive_request io.machine event).0 })
  pub writes :
      (io : Io) (bytes : Bytes)
      → P io
      → P (record (later io) { channel = (write_line (expired io) io.channel bytes).0 })
  pub reads :
      (io : Io)
      → P io
      → P (record (later io) { channel = (read_line_or_eof (expired io) io.channel).0 })
  pub decodes :
      (io : Io) (bytes : Bytes) → P io → P (record io { channel = decoded_line io.channel bytes })
  pub abandons : (io : Io) → P io → P (abandon io)

module _ (P : Io → Type 0) (stable : IsStable P) where
  pub if_stable :
      {A E : Type 0} (b : Bool) (x y : Io × Result E A) → P x.0 → P y.0 → P (if b then x else y).0
  if_stable true x y p q = p
  if_stable false x y p q = q

  pub after_response_stable :
      (next : Io → Done (Unit {0})) (io : Io) (o : ServerMachine × Result StateError (Unit {0}))
      → ((io' : Io) → P io' → P (next io').0)
      → P (record io { machine = o.0 })
      → P (after_response next io o).0
  after_response_stable next io (m, ok u) k p = k (record io { machine = m }) p
  after_response_stable next io (m, err e) k p = stable.abandons (record io { machine = m }) p

  pub after_write_stable :
      (next : Io → Done (Unit {0})) (io : Io) (o : Channel × Result TransportError (Unit {0}))
      → ((io' : Io) → P io' → P (next io').0)
      → P (record (later io) { channel = o.0 })
      → P (after_write next io o).0
  after_write_stable next io (c, ok u) k p = k (record (later io) { channel = c }) p
  after_write_stable next io (c, err e) k p = stable.abandons (record (later io) { channel = c }) p

  pub write_stable :
      (io : Io) (bytes : Bytes) (next : Io → Done (Unit {0}))
      → ((io' : Io) → P io' → P (next io').0)
      → P io
      → P (write io bytes next).0
  write_stable io bytes next k p =
      after_write_stable next io (write_line (expired io) io.channel bytes) k
        (stable.writes io bytes p)

  after_encode_stable :
      (line : ServerLine) (io : Io) (o : Bytes × Result ProtocolError ℕ)
      → is_final (kind line) ≡ false
      → P io
      → P (after_encode line io o).0
  after_encode_stable line io (output, err e) c p = stable.abandons io p
  after_encode_stable line io (output, ok n) c p =
      after_response_stable (λ io'. write io' (take n output) (λ done. (done, ok tt))) io
        (send_response io.machine (kind line))
        (λ io'. write_stable io' (take n output) (λ done. (done, ok tt)) (λ io'' q. q))
        (stable.responds io (kind line) c p)

  pub send_line_stable :
      (line : ServerLine) (io : Io) → is_final (kind line) ≡ false → P io → P (send_line line io).0
  unfolding send_line
  send_line_stable line io c p =
      after_encode_stable line io (encode_response line (replicate max_line_bytes 0)) c p

  pub send_status_stable :
      (keyword args : Bytes) (io : Io) → P io → P (send_status keyword args io).0
  unfolding send_status kind
  send_status_stable keyword args io p = send_line_stable (Message.status keyword args) io refl p

  after_chunk_stable :
      (next : Bytes → Io → Done (Unit {0})) (remaining : Bytes) (io : Io)
      (o : Bytes × Result ProtocolError (ℕ × ℕ))
      → ((rest : Bytes) (io' : Io) → P io' → P (next rest io').0)
      → P io
      → P (after_chunk next remaining io o).0
  after_chunk_stable next remaining io (output, err e) k p = stable.abandons io p
  after_chunk_stable next remaining io (output, ok (consumed, written)) k p =
      write_stable io (take written output)
        (λ io'.
          if is_empty (drop consumed remaining)
          then (io', ok tt)
          else next (drop consumed remaining) io')
        (λ io' q.
          if_stable (is_empty (drop consumed remaining)) (io', ok tt)
            (next (drop consumed remaining) io') q (k (drop consumed remaining) io' q))
        p

  data_loop_stable :
      (fuel : ℕ) (remaining : Bytes) (io : Io) → P io → P (data_loop fuel remaining io).0
  unfolding data_loop
  data_loop_stable zero remaining io p = p
  data_loop_stable (suc fuel) remaining io p =
      after_chunk_stable (data_loop fuel) remaining io
        (encode_data_chunk remaining (replicate max_line_bytes 0)) (data_loop_stable fuel) p

  pub send_data_stable : (bytes : Bytes) (io : Io) → P io → P (send_data bytes io).0
  unfolding send_data
  send_data_stable bytes io p =
      after_response_stable (data_loop (suc (length bytes)) bytes) io
        (send_response io.machine LineKind.payload) (data_loop_stable (suc (length bytes)) bytes)
        (stable.responds io LineKind.payload refl p)
