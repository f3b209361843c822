-- ===== src/Protocol/Encode/RoundTrip.antt =====
-- Parsing what an encoder has written.
use assuan_library_rs.Prelude.{
  ℕ, ◌≤◌, ◌≡◌, true, inl, inr, List, [], ◌∷◌, Bytes, codes, length, concat, if◌then◌else◌, ok, err,
  u32_max, Bool-cases, Result-cases,
}
use assuan_library_rs.Protocol.Error.{invalid_token}
use assuan_library_rs.Protocol.Command.{validate_token}
use assuan_library_rs.Protocol.Command.Fields.{validate_line_clean}
use assuan_library_rs.Protocol.Message.{
  ServerLine, okay, error, payload, status, inquire, end, comment, empty, starts_keyword, classify,
  parse_server_line,
}
use assuan_library_rs.Protocol.Encode.{
  max_line_bytes, Written, checked, write_parts, encode_response, write_optional, write_keyword,
  code_digits, validate_encoded_data,
}
use assuan_library_rs.Protocol.Encode.Write.{Wrote, write_parts-Wrote, Wrote-sent, sent}
use assuan_library_rs.Protocol.Encode.Lines.{
  classify_okay, classify_okay_text, classify_error, classify_error_text, classify_payload,
  classify_end, classify_comment, classify_empty, classify_status, classify_status_args,
  classify_inquire, classify_inquire_args,
}

-- A written line is read back as `line`.
abbrev pub ReadsBack : ServerLine → Bytes → Written ℕ → ℕ → Type 0
ReadsBack line output w n =
    Wrote output (sent n w.0) n w × (parse_server_line (sent n w.0) ≡ ok line)

reads_back :
    (line : ServerLine) (parts : List Bytes) (output : Bytes) (n : ℕ)
    → length output ≡ max_line_bytes
    → (write_parts parts output).1 ≡ ok n
    → classify (concat parts) ≡ ok line
    → ReadsBack line output (write_parts parts output) n
unfolding parse_server_line
reads_back line parts output n size e c =
    let w = write_parts-Wrote parts output n size e in
    let text = Wrote-sent w in (rw text w, rw (text, validate_line_clean (concat parts) w.clean) c)

abbrev keyword_checked : Bytes → Bytes → Written ℕ → Written ℕ
keyword_checked keyword output w =
    checked (validate_token keyword) output
      λ _. if starts_keyword keyword then w else (output, err invalid_token)

module _ (output : Bytes) (n : ℕ) (size : length output ≡ max_line_bytes) where
  okay-ReadsBack :
      (text : Bytes)
      → (write_optional (codes "OK") text output).1 ≡ ok n
      → ReadsBack (okay text) output (write_optional (codes "OK") text output) n
  unfolding write_optional
  okay-ReadsBack [] e = reads_back _ (codes "OK" ∷ []) output n size e classify_okay
  okay-ReadsBack (c ∷ text) e =
      reads_back _ (codes "OK" ∷ codes " " ∷ (c ∷ text) ∷ []) output n size e
        (classify_okay_text (c ∷ text))

  error-ReadsBack :
      (code : ℕ) (text : Bytes)
      → code ≤ u32_max
      → (encode_response (error code text) output).1 ≡ ok n
      → ReadsBack (error code text) output (encode_response (error code text) output) n
  unfolding encode_response
  error-ReadsBack code [] h e =
      reads_back _ (codes "ERR " ∷ code_digits code ∷ []) output n size e (classify_error code h)
  error-ReadsBack code (c ∷ text) h e =
      reads_back _ (codes "ERR " ∷ code_digits code ∷ codes " " ∷ (c ∷ text) ∷ []) output n size e
        (classify_error_text code (c ∷ text) h)

  payload-ReadsBack :
      (text : Bytes)
      → (encode_response (payload text) output).1 ≡ ok n
      → ReadsBack (payload text) output (encode_response (payload text) output) n
  unfolding encode_response
  payload-ReadsBack text e = elim (Result-cases (validate_encoded_data text)) [
    | inr (x, f) ↦ absurd (cc (rw f at e))
    | inl (u, f) ↦
        rw f
          (reads_back _ (codes "D " ∷ text ∷ []) output n size (rw f at e) (classify_payload text))
  ]

  -- The two checks of a keyword in front of the code that writes.
  checked-ReadsBack :
      (line : ServerLine) (keyword : Bytes) (w : Written ℕ)
      → (validate_token keyword ≡ ok tt
          → starts_keyword keyword ≡ true
          → w.1 ≡ ok n
          → ReadsBack line output w n)
      → (keyword_checked keyword output w).1 ≡ ok n
      → ReadsBack line output (keyword_checked keyword output w) n
  checked-ReadsBack line keyword w k e = elim (Result-cases (validate_token keyword)) [
    | inr (x, f) ↦ absurd (cc (rw f at e))
    | inl (u, f) ↦ elim (Bool-cases (starts_keyword keyword)) [
      | inr g ↦ absurd (cc (rw (f, g) at e))
      | inl g ↦ rw (f, g) (k f g (rw (f, g) at e))
    ]
  ]

  status-ReadsBack :
      (keyword args : Bytes)
      → (write_keyword (codes "S ") keyword args output).1 ≡ ok n
      → ReadsBack (status keyword args) output (write_keyword (codes "S ") keyword args output) n
  unfolding write_keyword
  status-ReadsBack keyword [] e =
      let parts = codes "S " ∷ keyword ∷ [] in
      checked-ReadsBack (status keyword []) keyword (write_parts parts output)
        (λ f g d. reads_back _ parts output n size d (classify_status keyword f g)) e
  status-ReadsBack keyword (c ∷ args) e =
      let parts = codes "S " ∷ keyword ∷ codes " " ∷ (c ∷ args) ∷ [] in
      checked-ReadsBack (status keyword (c ∷ args)) keyword (write_parts parts output)
        (λ f g d. reads_back _ parts output n size d (classify_status_args keyword f g (c ∷ args)))
        e

  inquire-ReadsBack :
      (keyword args : Bytes)
      → (write_keyword (codes "INQUIRE ") keyword args output).1 ≡ ok n
      → ReadsBack
          (inquire keyword args)
          output
          (write_keyword (codes "INQUIRE ") keyword args output)
          n
  unfolding write_keyword
  inquire-ReadsBack keyword [] e =
      let parts = codes "INQUIRE " ∷ keyword ∷ [] in
      checked-ReadsBack (inquire keyword []) keyword (write_parts parts output)
        (λ f g d. reads_back _ parts output n size d (classify_inquire keyword f g)) e
  inquire-ReadsBack keyword (c ∷ args) e =
      let parts = codes "INQUIRE " ∷ keyword ∷ codes " " ∷ (c ∷ args) ∷ [] in
      checked-ReadsBack (inquire keyword (c ∷ args)) keyword (write_parts parts output)
        (λ f g d. reads_back _ parts output n size d (classify_inquire_args keyword f g (c ∷ args)))
        e

-- The code of an error line is a `u32`; nothing is asked of the other lines.
abbrev pub HasCode : ServerLine → Type 0
HasCode (error code text) = code ≤ u32_max
HasCode _ = Unit

-- With storage of the limit's size and, for an error line, a code that is a `u32`: a response that
-- `encode_response` accepts is written as one line, within the limit and without
-- forbidden bytes, over the start of the storage, whose other bytes stay; and the parser reads that
-- line, less its line feed, back as the same response.
pub parse_server_line-encode_response :
    (line : ServerLine) (output : Bytes) (n : ℕ)
    → length output ≡ max_line_bytes
    → HasCode line
    → (encode_response line output).1 ≡ ok n
    → ReadsBack line output (encode_response line output) n
unfolding encode_response
parse_server_line-encode_response (okay text) output n size h e =
    okay-ReadsBack output n size text e
parse_server_line-encode_response (error code text) output n size h e =
    error-ReadsBack output n size code text h e
parse_server_line-encode_response (payload text) output n size h e =
    payload-ReadsBack output n size text e
parse_server_line-encode_response (status keyword args) output n size h e =
    status-ReadsBack output n size keyword args e
parse_server_line-encode_response (inquire keyword args) output n size h e =
    inquire-ReadsBack output n size keyword args e
parse_server_line-encode_response end output n size h e =
    reads_back end (codes "END" ∷ []) output n size e classify_end
parse_server_line-encode_response (comment text) output n size h e =
    reads_back (comment text) (codes "#" ∷ text ∷ []) output n size e (classify_comment text)
parse_server_line-encode_response empty output n size h e =
    reads_back empty [] output n size e classify_empty
