-- ===== src/Protocol/Tests.antt =====
-- Runs of the protocol's modules at concrete lines, commands and buffers.
use assuan_library_rs.Prelude.{
  ℕ, suc, ◌+◌, ◌≤◌, ◌<◌, ◌≡◌, refl, ◌⊎◌, true, some, false, List, [], ◌∷◌, ◌++◌, any, concat, drop,
  Bytes, codes, decimal_loop, length, take, replicate, length-replicate, arith, ok, err, usize_max,
  ◌==◌,
}
use assuan_library_rs.Protocol.Error.{
  ProtocolError, line_too_long, capacity_exceeded, length_overflow,
}
use assuan_library_rs.Protocol.Escape.{decode_data_in_place}
use assuan_library_rs.Protocol.Escape.Unescape.{unescape}
use assuan_library_rs.Protocol.Escape.InPlace.{decoded, decode_data_in_place-unescape}
use assuan_library_rs.Protocol.Command.{
  Command, is_forbidden, new, parse, split_field, validate_line, validate_token,
}
use assuan_library_rs.Protocol.Utf8.{from_utf8}
use assuan_library_rs.Protocol.Message.{ServerLine, error, payload, parse_server_line}
use assuan_library_rs.Protocol.Encode.{
  max_line_bytes, encode_response, encode_command, encode_data_chunk, write_parts,
}
use assuan_library_rs.Protocol.Encode.Accepts.{write_parts-accepts}
use assuan_library_rs.Protocol.Encode.Write.{sent}
use assuan_library_rs.Protocol.Encode.RoundTrip.{ReadsBack, parse_server_line-encode_response}
use assuan_library_rs.Protocol.Encode.Commands.{CommandReadsBack, parse-encode_command, parse-new}
use assuan_library_rs.Protocol.Encode.Chunk.{escape}
use assuan_library_rs.Protocol.Encode.Data.{Took, line_text, encode_data_chunk-round_trip}
use assuan_library_rs.Protocol.Frame
use assuan_library_rs.Protocol.Frame.{LineBuffer, feed, line, finish_eof}
use assuan_library_rs.Protocol.Frame.Lines.{new-Holds}
use assuan_library_rs.Protocol.Frame.Chunks.{and_feed, feed-append}
use assuan_library_rs.Protocol.Frame.Complete.{refused, feed-line, feed_overflow}
use assuan_library_rs.Protocol.Wire.{delivered, delivered-encode_response, delivered-encode_command}
use assuan_library_rs.Protocol.Secret.{
  SecretBytes, capacity, extend_from_slice, expose, clear, is_empty,
}
use assuan_library_rs.Protocol.Secret.Calls.{Call, extend, wipe, run, held, wiped, run-Fresh}
use assuan_library_rs.Protocol.Secret.Bounded.{Keeps, Extended, extend_from_slice-Keeps}

-- Storage of the limit's size.
abbrev blank : Bytes
blank = replicate max_line_bytes 0

length-blank : length blank ≡ max_line_bytes
length-blank = length-replicate {A = ℕ} max_line_bytes 0

-- `ERR 536871187 bad argument`.
abbrev refusal : ServerLine
refusal = error 536871187 (codes "bad argument")

encode_refusal : (encode_response refusal blank).1 ≡ ok 27
unfolding encode_response validate_line decimal_loop
encode_refusal = refl

abbrev set_pin : Command
set_pin = record { name = codes "SETDESC"; args = codes "Enter a PIN" }

set_pin_valid : new set_pin.name set_pin.args ≡ ok set_pin
unfolding new validate_line validate_token
set_pin_valid = refl

encode_set_pin : (encode_command set_pin blank).1 ≡ ok 20
unfolding encode_command validate_line
encode_set_pin = refl

delivered-encode_response_example :
    ((delivered 27 (encode_response refusal blank).0 (codes "OK")).1 ≡ ok 27)
    × (text : Bytes) × (line (delivered 27 (encode_response refusal blank).0 (codes "OK")).0
        ≡ some text)
    × (parse_server_line text ≡ ok refusal)
delivered-encode_response_example =
    delivered-encode_response refusal blank (codes "OK") 27 length-blank (omega arith)
      encode_refusal

delivered-encode_command_example :
    ((delivered 20 (encode_command set_pin blank).0 []).1 ≡ ok 20)
    × (text : Bytes) × (line (delivered 20 (encode_command set_pin blank).0 []).0 ≡ some text)
    × (parse text ≡ ok set_pin)
delivered-encode_command_example =
    delivered-encode_command set_pin blank [] 20 length-blank set_pin_valid encode_set_pin

parse_server_line-encode_response_example :
    ReadsBack refusal blank (encode_response refusal blank) 27
parse_server_line-encode_response_example =
    parse_server_line-encode_response refusal blank 27 length-blank (omega arith) encode_refusal

parse-encode_command_example : CommandReadsBack set_pin blank 20
parse-encode_command_example =
    parse-encode_command set_pin blank 20 length-blank set_pin_valid encode_set_pin

decode_data_in_place-unescape_example :
    decode_data_in_place (codes "a%25b%0A")
    ≡ decoded (codes "a%25b%0A") (unescape (codes "a%25b%0A"))
decode_data_in_place-unescape_example = decode_data_in_place-unescape (codes "a%25b%0A")

-- `100%` and a line feed.
abbrev percent : Bytes
percent = codes "100%" ++ b'\n' ∷ []

encode_data_chunk-round_trip_example :
    (k : ℕ) × Took percent blank k
    × (parse_server_line
          (sent (suc (length (line_text percent k))) (encode_data_chunk percent blank).0)
        ≡ ok (payload (escape (take k percent))))
    × (unescape (escape (take k percent)) ≡ some (take k percent))
encode_data_chunk-round_trip_example = encode_data_chunk-round_trip percent blank length-blank

parse-set_pin : parse (codes "SETDESC Enter a PIN") ≡ ok set_pin
unfolding parse validate_line validate_token split_field from_utf8
parse-set_pin = refl

parse-new_example : new set_pin.name set_pin.args ≡ ok set_pin
parse-new_example = parse-new (codes "SETDESC Enter a PIN") set_pin parse-set_pin

feed-append_example :
    feed Frame.new (codes "OK Pleased" ++ codes " to meet you")
    ≡ and_feed (feed Frame.new (codes "OK Pleased")) (codes " to meet you")
feed-append_example = feed-append Frame.new (codes "OK Pleased") (codes " to meet you")

feed-line_example :
    ((feed Frame.new (codes "OK\r" ++ b'\n' ∷ codes "BYE")).1 ≡ ok 4)
    × (line (feed Frame.new (codes "OK\r" ++ b'\n' ∷ codes "BYE")).0 ≡ some (codes "OK"))
    × (finish_eof (feed Frame.new (codes "OK\r" ++ b'\n' ∷ codes "BYE")).0 ≡ ok tt)
feed-line_example = feed-line Frame.new [] (codes "OK\r") (codes "BYE") new-Holds refl (omega arith)

-- A thousand bytes without a line feed.
abbrev flood : Bytes
flood = replicate 1000 b'A'

feed_overflow_example :
    (feed Frame.new (flood ++ codes "B") ≡ (refused, err line_too_long))
    × (feed refused (codes "OK") ≡ (refused, err line_too_long))
    × (finish_eof refused ≡ err line_too_long)
    × (Frame.clear refused ≡ Frame.new)
feed_overflow_example =
    feed_overflow Frame.new [] flood (codes "B") (codes "OK") new-Holds (omega arith) refl
      (omega arith)

-- A store of eight bytes that holds five.
abbrev pin_store : SecretBytes
pin_store = record { storage = codes "12345" ++ replicate 3 0; len = 5 }

pin_store-Keeps : Keeps 8 (codes "12345") pin_store
pin_store-Keeps = record { storage = refl; len = refl; room = omega arith }

extend_from_slice-Keeps_example :
    ((length (codes "12345") + length (codes "6789") ≤ 8)
      × Extended 8 (codes "12345" ++ codes "6789") (extend_from_slice pin_store (codes "6789")))
    ⊎ ((8 < length (codes "12345") + length (codes "6789"))
        × ((extend_from_slice pin_store (codes "6789") ≡ (pin_store, err capacity_exceeded))
            ⊎ ((extend_from_slice pin_store (codes "6789") ≡ (pin_store, err length_overflow))
                × (usize_max < length (codes "12345") + length (codes "6789")))))
extend_from_slice-Keeps_example =
    extend_from_slice-Keeps 8 (codes "12345") (codes "6789") pin_store pin_store-Keeps (omega arith)

-- A store with bytes behind its length is wiped, filled, refused more, wiped and filled again.
abbrev stale_store : SecretBytes
stale_store = record { storage = codes "12345678"; len = 5 }

abbrev pin_calls : List Call
pin_calls = extend (codes "123456") ∷ extend (codes "789") ∷ wipe ∷ extend (codes "90") ∷ []

stale_size : capacity (clear stale_store) ≤ usize_max
unfolding capacity clear
stale_size = omega arith

run-Fresh_example :
    Keeps
      (capacity (clear stale_store))
      (held (capacity (clear stale_store)) [] pin_calls)
      (run pin_calls (clear stale_store))
    × (expose (run pin_calls (clear stale_store))
        ≡ held (capacity (clear stale_store)) [] pin_calls)
    × (capacity (run pin_calls (clear stale_store)) ≡ capacity (clear stale_store))
    × (is_empty (run pin_calls (clear stale_store))
        ≡ (length (held (capacity (clear stale_store)) [] pin_calls) == 0))
run-Fresh_example = run-Fresh (clear stale_store) pin_calls (wiped stale_store) stale_size

abbrev comment_parts : List Bytes
comment_parts = codes "#" ∷ codes " ready" ∷ []

write_parts-accepts_example :
    ((any is_forbidden (concat comment_parts) ≡ false)
      × (length (concat comment_parts) < max_line_bytes)
      × (write_parts comment_parts blank ≡ (
        concat comment_parts ++ b'\n' ∷ drop (suc (length (concat comment_parts))) blank,
        ok (suc (length (concat comment_parts))),
      )))
    ⊎ (((any is_forbidden (concat comment_parts) ≡ true)
          ⊎ (max_line_bytes ≤ length (concat comment_parts)))
        × ((x : ProtocolError) × (write_parts comment_parts blank ≡ (blank, err x))))
write_parts-accepts_example = write_parts-accepts comment_parts blank length-blank
