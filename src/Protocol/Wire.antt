-- ===== src/Protocol/Wire.antt =====
-- From an encoder through the framing to the parser, as the transport connects them.
use assuan_library_rs.Prelude.{
  ℕ, ◌≡◌, refl, sym, ap, ◌∙◌, true, false, some, [], ◌∷◌, ◌++◌, append_assoc, Bytes, length, take,
  drop, take-append, length-snoc, all, any, arith, ok, ||-false, &&-intro,
}
use assuan_library_rs.Protocol.Command.{Command, is_forbidden, new, parse}
use assuan_library_rs.Protocol.Message.{ServerLine, parse_server_line}
use assuan_library_rs.Protocol.Encode.{max_line_bytes, Written, encode_response, encode_command}
use assuan_library_rs.Protocol.Encode.Write.{Wrote, sent}
use assuan_library_rs.Protocol.Encode.RoundTrip.{HasCode, parse_server_line-encode_response}
use assuan_library_rs.Protocol.Encode.Commands.{parse-encode_command}
use assuan_library_rs.Protocol.Frame
use assuan_library_rs.Protocol.Frame.{LineBuffer, Fed, feed, line}
use assuan_library_rs.Protocol.Frame.Lines.{new-Holds, not_feed}
use assuan_library_rs.Protocol.Frame.Complete.{strip_cr, feed-line}

pub clean-not_feed : (text : Bytes) → any is_forbidden text ≡ false → all not_feed text ≡ true
clean-not_feed [] h = refl
clean-not_feed (c ∷ text) h =
    let (a, b) = ||-false (is_forbidden c) _ h in &&-intro (ground arith) (clean-not_feed text b)

pub clean-strip_cr : (text : Bytes) → any is_forbidden text ≡ false → strip_cr text ≡ text
clean-strip_cr [] h = refl
clean-strip_cr (c ∷ []) h = ground arith
clean-strip_cr (c ∷ d ∷ r) h =
    let (a, b) = ||-false (is_forbidden c) _ h in ap (λ z. c ∷ z) (clean-strip_cr (d ∷ r) b)

pub take-Wrote :
    {output text : Bytes} {n : ℕ} {w : Written ℕ}
    → Wrote output text n w
    → take n w.0 ≡ text ++ b'\n' ∷ []
take-Wrote {output} {text} {n} {w} r =
    let e : n ≡ length (text ++ b'\n' ∷ []) = omega (arith, r.size, length-snoc text b'\n') in
    ap (λ z. take z w.0) e
    ∙ ap (take (length (text ++ b'\n' ∷ [])))
        (r.storage ∙ sym (append_assoc text (b'\n' ∷ []) (drop n output)))
    ∙ take-append (text ++ b'\n' ∷ []) (drop n output)

-- Feeding an encoded line, with whatever the connection brings behind it.
abbrev pub delivered : ℕ → Bytes → Bytes → Fed
delivered n storage rest = feed Frame.new (take n storage ++ rest)

deliver :
    {output text : Bytes} {n : ℕ} {w : Written ℕ} (rest : Bytes)
    → Wrote output text n w
    → ((delivered n w.0 rest).1 ≡ ok n) × (line (delivered n w.0 rest).0 ≡ some text)
deliver {output} {text} {n} {w} rest r =
    let bytes : take n w.0 ++ rest ≡ text ++ b'\n' ∷ rest =
      ap (λ z. z ++ rest) (take-Wrote r) ∙ append_assoc text (b'\n' ∷ []) rest in
    let fed =
      feed-line Frame.new [] text rest new-Holds (clean-not_feed text r.clean)
        (omega (arith, r.size, r.fits)) in
    (
      ap (λ z. (feed Frame.new z).1) bytes ∙ fed.0 ∙ ap ok (omega (arith, r.size)),
      ap (λ z. line (feed Frame.new z).0) bytes ∙ fed.1 ∙ ap some (clean-strip_cr text r.clean),
    )

-- With storage of the limit's size and, for an error line, a code that is a `u32`: the bytes of an
-- accepted response, read into a new line buffer with any bytes behind them, are
-- consumed up to their end, and the line that is then ready is parsed as that response.
pub delivered-encode_response :
    (response : ServerLine) (output rest : Bytes) (n : ℕ)
    → length output ≡ max_line_bytes
    → HasCode response
    → (encode_response response output).1 ≡ ok n
    → ((delivered n (encode_response response output).0 rest).1 ≡ ok n)
      × (text : Bytes) × (line (delivered n (encode_response response output).0 rest).0 ≡ some text)
      × (parse_server_line text ≡ ok response)
delivered-encode_response response output rest n size code e =
    let (w, parsed) = parse_server_line-encode_response response output n size code e in
    let (count, ready) = deliver rest w in
    (count, sent n (encode_response response output).0, ready, parsed)

-- With storage of the limit's size: the bytes of an accepted command, one that `Command::new`
-- validated, read into a new line buffer with any bytes behind them, are consumed up to their end,
-- and the line that is then ready is parsed as that command.
pub delivered-encode_command :
    (command : Command) (output rest : Bytes) (n : ℕ)
    → length output ≡ max_line_bytes
    → new command.name command.args ≡ ok command
    → (encode_command command output).1 ≡ ok n
    → ((delivered n (encode_command command output).0 rest).1 ≡ ok n)
      × (text : Bytes) × (line (delivered n (encode_command command output).0 rest).0 ≡ some text)
      × (parse text ≡ ok command)
delivered-encode_command command output rest n size v e =
    let (w, parsed) = parse-encode_command command output n size v e in
    let (count, ready) = deliver rest w in
    (count, sent n (encode_command command output).0, ready, parsed)
