-- ===== src/Server/Context/Payload.antt =====
-- crates/assuan-server/src/context.rs: the lines of `send_data`.
use assuan_library_rs.Prelude.{
  ℕ, zero, suc, ◌<◌, ◌≤◌, ◌≡◌, refl, sym, ap, ◌∙◌, ◌⊎◌, inl, inr, true, false, arith, some, List,
  [], ◌∷◌, ◌++◌, append_assoc, append-nil, Bytes, codes, concat, length, set, length-set,
  length-drop, take, drop, any, any-append, replicate, length-replicate, is_empty, if◌then◌else◌,
  ok, Bool-cases,
}
use assuan_library_rs.Protocol.Command.{is_forbidden}
use assuan_library_rs.Protocol.Escape.Unescape.{unescape}
use assuan_library_rs.Protocol.Message.{payload, parse_server_line}
use assuan_library_rs.Protocol.Encode.{max_line_bytes, copy_at}
use assuan_library_rs.Protocol.Encode.Chunk.{escape, escape-clean}
use assuan_library_rs.Protocol.Encode.Data.{
  line_text, Took, encode_data_chunk-round_trip, parse_payload,
}
use assuan_library_rs.Protocol.State.Server.{handler, send_response}
use assuan_library_rs.Transport.Stream.{Stream, Write, flushed}
use assuan_library_rs.Transport.Channel.{write_line}
use assuan_library_rs.Transport.Channel.Writing.{sent_on, write_line-sent_on}
use assuan_library_rs.Server.Context.{
  Io, Done, expired, later, after_write, write, after_chunk, data_loop, send_data,
}

abbrev storage : Bytes
storage = replicate max_line_bytes 0

abbrev pub text_of : Bytes → Bytes
text_of part = codes "D " ++ escape part

-- The data lines of the parts.
abbrev pub lines_of : List Bytes → Bytes
lines_of [] = []
lines_of (part ∷ parts) = (text_of part ++ b'\n' ∷ []) ++ lines_of parts

-- The client reads each line as data, and decodes it to its part.
abbrev pub AreRead : List Bytes → Type 0
AreRead [] = Unit
AreRead (part ∷ parts) =
    (parse_server_line (text_of part) ≡ ok (payload (escape part)))
    × (unescape (escape part) ≡ some part)
    × (length (text_of part) < max_line_bytes)
    × AreRead parts

-- A connection whose deadline does not pass, and whose stream takes `n` lines.
pub record Flows (io : Io) (s : Stream) (n : ℕ) : Type 0 where
  pub on_time : io.expiries ≡ []
  pub stream : io.channel.stream ≡ some s
  pub size : length io.channel.write ≡ max_line_bytes
  pub takes : s.writes ≡ replicate n flushed

-- The bytes went out in parts, one to a line.
pub record Sent (s : Stream) (bytes : Bytes) (o : Done (Unit {0})) : Type 0 where
  pub parts : List Bytes
  pub writes : List Write
  pub result : o.1 ≡ ok tt
  pub whole : concat parts ≡ bytes
  pub stream :
      o.0.channel.stream
      ≡ some (record s { writes = writes; delivered = s.delivered ++ lines_of parts })
  pub read : AreRead parts

abbrev after_line : Io → Stream → Bytes → ℕ → Io
after_line io s text n = record (later io) {
  channel = sent_on io.channel s (text ++ b'\n' ∷ []) (replicate n flushed);
}

length-copy_at :
    (output : Bytes) (index : ℕ) (part : Bytes) → length (copy_at output index part) ≡ length output
length-copy_at output index [] = refl
length-copy_at output index (byte ∷ part) =
    length-copy_at (set output index byte) (suc index) part ∙ length-set output index byte

after_line-Flows :
    (io : Io) (s : Stream) (text : Bytes) (n : ℕ)
    → Flows io s (suc n)
    → length text < max_line_bytes
    → Flows
        (after_line io s text n)
        (record s { writes = replicate n flushed; delivered = s.delivered ++ (text ++ b'\n' ∷ []) })
        n
after_line-Flows io s text n f room = record {
  on_time = rw f.on_time refl;
  stream = refl;
  size =
      length-replicate {A = ℕ} (length (copy_at io.channel.write 0 (text ++ b'\n' ∷ []))) 0
      ∙ length-copy_at io.channel.write 0 (text ++ b'\n' ∷ [])
      ∙ f.size;
  takes = refl;
}

write_line_step :
    (io : Io) (s : Stream) (text : Bytes) (n : ℕ) (next : Io → Done (Unit {0}))
    → Flows io s (suc n)
    → any is_forbidden text ≡ false
    → length text < max_line_bytes
    → write io (text ++ b'\n' ∷ []) next ≡ next (after_line io s text n)
write_line_step io s text n next f clean room =
    let time : expired io ≡ false = rw f.on_time refl in
    ap (λ z. after_write next io (write_line z io.channel (text ++ b'\n' ∷ []))) time
    ∙ ap (after_write next io) (
        write_line-sent_on io.channel s text (replicate n flushed) f.stream f.size f.takes clean
          room)

take_line :
    (text behind : Bytes) → take (suc (length text)) (text ++ b'\n' ∷ behind) ≡ text ++ b'\n' ∷ []
take_line [] behind = refl
take_line (byte ∷ text) behind = ap (λ z. byte ∷ z) (take_line text behind)

chunk_step :
    (fuel : ℕ) (remaining : Bytes) (io : Io) (s : Stream) (n k : ℕ)
    → Took remaining storage k
    → Flows io s (suc n)
    → data_loop (suc fuel) remaining io ≡ (
        if is_empty (drop k remaining)
        then (after_line io s (line_text remaining k) n, ok tt)
        else data_loop fuel (drop k remaining) (after_line io s (line_text remaining k) n))
unfolding data_loop
chunk_step fuel remaining io s n k t f =
    let text = line_text remaining k in
    let behind = drop (suc (length text)) storage in
    let next : Io → Done (Unit {0}) = λ io'.
      if is_empty (drop k remaining) then (io', ok tt) else data_loop fuel (drop k remaining) io' in
    ap (after_chunk (data_loop fuel) remaining io) t.result
    ∙ ap (λ z. write io z next) (take_line text behind)
    ∙ write_line_step io s text n next f
        (any-append is_forbidden (codes "D ") (escape (take k remaining)) refl
          (escape-clean (take k remaining)))
        t.fits

take-drop : (n : ℕ) (xs : Bytes) → take n xs ++ drop n xs ≡ xs
take-drop zero xs = refl
take-drop (suc n) [] = refl
take-drop (suc n) (x ∷ xs) = ap (λ z. x ∷ z) (take-drop n xs)

is_empty-eq : (xs : Bytes) → is_empty xs ≡ true → xs ≡ []
is_empty-eq [] e = refl
is_empty-eq (x ∷ xs) e = cc

parse_part : (part : Bytes) → parse_server_line (text_of part) ≡ ok (payload (escape part))
parse_part part =
    parse_payload (escape part)
      (any-append is_forbidden (codes "D ") (escape part) refl (escape-clean part))

last-Sent :
    (io : Io) (s : Stream) (remaining : Bytes) (k n : ℕ)
    → is_empty (drop k remaining) ≡ true
    → AreRead (take k remaining ∷ [])
    → Sent s remaining (after_line io s (line_text remaining k) n, ok tt)
last-Sent io s remaining k n z reads =
    let part = take k remaining in
    let line = text_of part ++ b'\n' ∷ [] in
    record {
      parts = part ∷ [];
      writes = replicate n flushed;
      result = refl;
      whole = ap (λ z. part ++ z) (sym (is_empty-eq (drop k remaining) z)) ∙ take-drop k remaining;
      stream =
          ap (λ z. some (record s { writes = replicate n flushed; delivered = s.delivered ++ z }))
            (sym (append-nil line));
      read = reads;
    }

more-Sent :
    (s : Stream) (remaining : Bytes) (k n : ℕ) (o : Done (Unit {0}))
    → AreRead (take k remaining ∷ [])
    → Sent
        (record s {
          writes = replicate n flushed;
          delivered = s.delivered ++ (line_text remaining k ++ b'\n' ∷ []);
        })
        (drop k remaining)
        o
    → Sent s remaining o
more-Sent s remaining k n o reads h =
    let part = take k remaining in
    let line = text_of part ++ b'\n' ∷ [] in
    record {
      parts = part ∷ h.parts;
      writes = h.writes;
      result = h.result;
      whole = ap (λ z. part ++ z) h.whole ∙ take-drop k remaining;
      stream =
          h.stream
          ∙ ap (λ z. some (record s { writes = h.writes; delivered = z }))
              (append_assoc s.delivered line (lines_of h.parts));
      read = (reads.0, reads.1, reads.2, h.read);
    }

nonempty : (xs : Bytes) → is_empty xs ≡ false → 0 < length xs
nonempty [] e = cc
nonempty (x ∷ xs) e = omega arith

shorter :
    (xs : Bytes) (k : ℕ)
    → (length xs ≡ 0) ⊎ (0 < k)
    → is_empty (drop k xs) ≡ false
    → length (drop k xs) < length xs
shorter xs k (inl none_left) e = omega (arith, nonempty (drop k xs) e, length-drop k xs, none_left)
shorter xs k (inr some_taken) e =
    omega (arith, nonempty (drop k xs) e, length-drop k xs, some_taken)

data_loop-Sent :
    (fuel n : ℕ) (remaining : Bytes) (io : Io) (s : Stream)
    → length remaining < fuel
    → fuel ≤ n
    → Flows io s n
    → Sent s remaining (data_loop fuel remaining io)
data_loop-Sent zero n remaining io s l m f = absurd (omega (arith, l))
data_loop-Sent (suc fuel) zero remaining io s l m f = absurd (omega (arith, m))
data_loop-Sent (suc fuel) (suc n) remaining io s l m f =
    let (k, t, parsed, decoded) =
      encode_data_chunk-round_trip remaining storage (length-replicate {A = ℕ} max_line_bytes 0) in
    let part = take k remaining in
    let text = line_text remaining k in
    let io' = after_line io s text n in
    let s' = record s {
      writes = replicate n flushed;
      delivered = s.delivered ++ (text ++ b'\n' ∷ []);
    } in
    let reads : AreRead (part ∷ []) = (parse_part part, decoded, t.fits, tt) in
    rw (chunk_step fuel remaining io s n k t f) (elim (Bool-cases (is_empty (drop k remaining))) [
      | inl z ↦ rw z (last-Sent io s remaining k n z (reads))
      | inr nz ↦ rw nz (
          more-Sent s remaining k n (data_loop fuel (drop k remaining) io') reads (
            data_loop-Sent fuel n (drop k remaining) io' s'
              (omega (arith, l, shorter remaining k t.progress nz)) (omega (arith, m))
              (after_line-Flows io s text n f t.fits)))
    ])

send_data_of :
    (bytes : Bytes) (io : Io)
    → io.machine.state ≡ handler
    → send_data bytes io ≡ data_loop (suc (length bytes)) bytes (record io { machine = io.machine })
unfolding send_data send_response
send_data_of bytes io h = rw h refl

-- A handler's data reaches the client: while a command is handled, with no deadline in the way and a
-- stream that takes a line for each byte and one more, `send_data` succeeds, and what it has written is
-- whole data lines, in order, that the client reads as data and decodes to the parts of the bytes.
pub send_data-Sent :
    (bytes : Bytes) (io : Io) (s : Stream) (n : ℕ)
    → io.machine.state ≡ handler
    → length bytes < n
    → Flows io s n
    → Sent s bytes (send_data bytes io)
send_data-Sent bytes io s n h l f = rw (send_data_of bytes io h) (
    data_loop-Sent (suc (length bytes)) n bytes (record io { machine = io.machine }) s (omega arith)
      (omega (arith, l)) f)
