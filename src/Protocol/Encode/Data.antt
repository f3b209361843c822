-- ===== src/Protocol/Encode/Data.antt =====
-- One line of data: what `encode_data_chunk` leaves in the storage, and how the line is read back.
use native.Mathlib.Nat.{zero-add}
use native.Mathlib.Numerals.{add-one}
use assuan_library_rs.Prelude.{
  ℕ, zero, suc, ◌-◌, ◌≤◌, ◌<◌, ◌≡◌, refl, ap, ◌⊎◌, some, inl, inr, [], ◌∷◌, ◌++◌, Bytes, codes,
  length, take, take-append, drop, any, any-append, false, arith, ok, append-nil, length-append,
}
use assuan_library_rs.Protocol.Escape.Unescape.{unescape}
use assuan_library_rs.Protocol.Command.{is_forbidden}
use assuan_library_rs.Protocol.Command.Fields.{validate_line_clean}
use assuan_library_rs.Protocol.Message.{payload, parse_server_line}
use assuan_library_rs.Protocol.Encode.{max_line_bytes, chunk_loop, encode_data_chunk}
use assuan_library_rs.Protocol.Encode.Write.{over, copy_at-over, over-feed, sent}
use assuan_library_rs.Protocol.Encode.Lines.{classify_payload}
use assuan_library_rs.Protocol.Encode.Chunk.{
  hide, length-hide_le, escape, escape-clean, unescape-escape, IsFull, taken, chunk_loop-Consumes,
}

-- The text of the line that takes `k` bytes of the input.
abbrev pub line_text : Bytes → ℕ → Bytes
line_text input k = codes "D " ++ escape (take k input)

-- A line that takes `k` bytes of the input.
pub record Took (input output : Bytes) (k : ℕ) : Type 0 where
  pub within : k ≤ length input
  pub longest : IsFull (codes "D ") input k
  pub progress : (length input ≡ 0) ⊎ (0 < k)
  pub fits : length (line_text input k) < max_line_bytes
  pub result : encode_data_chunk input output ≡ (
    line_text input k ++ b'\n' ∷ drop (suc (length (line_text input k))) output,
    ok (k, suc (length (line_text input k))),
  )

moves_on : (input : Bytes) (k : ℕ) → IsFull (codes "D ") input k → (length input ≡ 0) ⊎ (0 < k)
moves_on [] k f = inl refl
moves_on (byte ∷ input) zero f = elim f [
  | inl e ↦ absurd (omega arith)
  | inr l ↦ absurd (omega (arith, length-hide_le byte, length-append (hide byte) []))
]
moves_on (byte ∷ input) (suc k) f = inr (omega arith)

finish :
    (input output : Bytes) (k : ℕ)
    → length output ≡ max_line_bytes
    → length (line_text input k) < max_line_bytes
    → chunk_loop input (over (codes "D ") output) 2 0 ≡ taken (codes "D ") input output 0 k
    → encode_data_chunk input output ≡ (
      line_text input k ++ b'\n' ∷ drop (suc (length (line_text input k))) output,
      ok (k, suc (length (line_text input k))),
    )
unfolding encode_data_chunk
finish input output k s room e =
    rw (copy_at-over output [] (codes "D ") (omega arith), e, zero-add, add-one)
      (ap (λ z. (z, ok (k, suc (length (line_text input k)))))
        (over-feed (line_text input k) output (omega arith)))

encode_data_chunk-Took :
    (input output : Bytes) → length output ≡ max_line_bytes → (k : ℕ) × Took input output k
encode_data_chunk-Took input output s =
    let c = chunk_loop-Consumes input (codes "D ") output 0 (omega arith) s in
    (
      c.k,
      record {
        within = c.within;
        longest = c.full;
        progress = moves_on input c.k c.full;
        fits = c.room;
        result = finish input output c.k s c.room c.result;
      },
    )

suc-sub-one : (n : ℕ) → suc n - 1 ≡ n
suc-sub-one n = omega arith

sent_line :
    (input output : Bytes) (k : ℕ)
    → Took input output k
    → sent (suc (length (line_text input k))) (encode_data_chunk input output).0 ≡ line_text input k
sent_line input output k t =
    rw (t.result, suc-sub-one (length (line_text input k)))
      (take-append (line_text input k) (b'\n' ∷ drop (suc (length (line_text input k))) output))

pub parse_payload :
    (text : Bytes)
    → any is_forbidden (codes "D " ++ text) ≡ false
    → parse_server_line (codes "D " ++ text) ≡ ok (payload text)
unfolding parse_server_line
parse_payload text clean =
    rw (validate_line_clean (codes "D " ++ text) clean) (rw append-nil at (classify_payload text))

-- For storage of the limit's size, one call of `encode_data_chunk` takes the longest prefix of the
-- input whose escaped form fits, at least one byte of a nonempty input, and leaves its line in the
-- storage; the parser reads that line as data, and decoding the data gives the prefix.
pub encode_data_chunk-round_trip :
    (input output : Bytes)
    → length output ≡ max_line_bytes
    → (k : ℕ) × Took input output k
      × (parse_server_line
            (sent (suc (length (line_text input k))) (encode_data_chunk input output).0)
          ≡ ok (payload (escape (take k input))))
      × (unescape (escape (take k input)) ≡ some (take k input))
encode_data_chunk-round_trip input output s =
    let (k, t) = encode_data_chunk-Took input output s in
    let clean =
      any-append is_forbidden (codes "D ") (escape (take k input)) refl
        (escape-clean (take k input)) in
    (
      k,
      t,
      rw (sent_line input output k t) (parse_payload (escape (take k input)) clean),
      unescape-escape (take k input),
    )
