-- ===== src/Protocol/Encode/Lines.antt =====
-- How the parser classifies the text of each kind of line.
use assuan_library_rs.Prelude.{
  ℕ, ◌+◌, ◌/◌, ◌%◌, ◌≤◌, ◌≡◌, refl, ◌∙◌, true, false, List, [], ◌∷◌, ◌++◌, append-nil, Bytes, codes,
  all, concat, is_empty, arith, ok, u32_max, decimal_loop, decimal_loop-read, decimal_loop-digits,
  decimal_loop-not_empty, is_digit,
}
use assuan_library_rs.Protocol.Command.{validate_token}
use assuan_library_rs.Protocol.Command.Fields.{
  split_field-append, split_field_whole, validate_token-from_utf8, token-all-no_space, all-imp,
  no_space,
}
use assuan_library_rs.Protocol.Message.{
  ServerLine, okay, error, payload, status, inquire, end, comment, empty, starts_keyword,
  parse_keyword, parse_code, parse_error, classify,
}
use assuan_library_rs.Protocol.Encode.{code_digits}

-- Reading one more digit of a code.
parse_code_step :
    (n : ℕ) (digits : Bytes)
    → n ≤ u32_max
    → parse_code ((b'0' + n % 10) ∷ digits) (n / 10) ≡ parse_code digits n
unfolding parse_code
parse_code_step n digits h = ground arith

parse_code-code_digits : (code : ℕ) → code ≤ u32_max → parse_code (code_digits code) 0 ≡ ok code
unfolding code_digits
parse_code-code_digits code h =
    decimal_loop-read parse_code u32_max parse_code_step 9 code [] (omega arith) h
    ∙ (unfold parse_code in refl)

digit-no_space : (b : ℕ) → is_digit b ≡ true → no_space b ≡ true
digit-no_space b h = ground arith

code_digits-no_space : (code : ℕ) → all no_space (code_digits code) ≡ true
unfolding code_digits
code_digits-no_space code =
    all-imp is_digit no_space (decimal_loop 10 code []) digit-no_space
      (decimal_loop-digits 10 code [] refl)

code_digits-not_empty : (code : ℕ) → is_empty (code_digits code) ≡ false
unfolding code_digits
code_digits-not_empty code = decimal_loop-not_empty 9 code []

-- The fields of an error line.
parse_error_plain :
    (code : ℕ) → code ≤ u32_max → parse_error (code_digits code) ≡ ok (error code [])
unfolding parse_error
parse_error_plain code h = rw (
  split_field_whole (code_digits code) (code_digits-no_space code),
  code_digits-not_empty code,
  parse_code-code_digits code h,
)

parse_error_text :
    (code : ℕ) (text : Bytes)
    → code ≤ u32_max
    → parse_error (code_digits code ++ b' ' ∷ text) ≡ ok (error code text)
unfolding parse_error
parse_error_text code text h = rw (
  split_field-append (code_digits code) text (code_digits-no_space code),
  code_digits-not_empty code,
  parse_code-code_digits code h,
)

-- The fields of a status or inquiry line.
module _ (keyword : Bytes) (valid : validate_token keyword ≡ ok tt)
    (starts : starts_keyword keyword ≡ true) where
  parse_keyword_plain : parse_keyword keyword ≡ ok (keyword, [])
  unfolding parse_keyword
  parse_keyword_plain = rw (
    split_field_whole keyword (token-all-no_space keyword valid),
    valid,
    starts,
    validate_token-from_utf8 keyword valid,
  )

  parse_keyword_args : (args : Bytes) → parse_keyword (keyword ++ b' ' ∷ args) ≡ ok (keyword, args)
  unfolding parse_keyword
  parse_keyword_args args = rw (
    split_field-append keyword args (token-all-no_space keyword valid),
    valid,
    starts,
    validate_token-from_utf8 keyword valid,
  )

-- The texts that the encoder composes, one lemma for each composition.
abbrev Classified : List Bytes → ServerLine → Type 0
Classified parts line = classify (concat parts) ≡ ok line

pub classify_okay : Classified (codes "OK" ∷ []) (okay [])
unfolding classify
classify_okay = refl

pub classify_okay_text :
    (text : Bytes) → Classified (codes "OK" ∷ codes " " ∷ text ∷ []) (okay text)
unfolding classify
classify_okay_text text = rw append-nil

pub classify_error :
    (code : ℕ) → code ≤ u32_max → Classified (codes "ERR " ∷ code_digits code ∷ []) (error code [])
unfolding classify
classify_error code h = rw append-nil (parse_error_plain code h)

pub classify_error_text :
    (code : ℕ) (text : Bytes)
    → code ≤ u32_max
    → Classified (codes "ERR " ∷ code_digits code ∷ codes " " ∷ text ∷ []) (error code text)
unfolding classify
classify_error_text code text h = rw append-nil (parse_error_text code text h)

pub classify_payload : (text : Bytes) → Classified (codes "D " ∷ text ∷ []) (payload text)
unfolding classify
classify_payload text = rw append-nil

pub classify_end : Classified (codes "END" ∷ []) end
unfolding classify
classify_end = refl

pub classify_comment : (text : Bytes) → Classified (codes "#" ∷ text ∷ []) (comment text)
unfolding classify
classify_comment text = rw append-nil

pub classify_empty : Classified [] empty
unfolding classify
classify_empty = refl

module _ (keyword : Bytes) (valid : validate_token keyword ≡ ok tt)
    (starts : starts_keyword keyword ≡ true) where
  pub classify_status : Classified (codes "S " ∷ keyword ∷ []) (status keyword [])
  unfolding classify
  classify_status = rw (append-nil, parse_keyword_plain keyword valid starts)

  pub classify_status_args :
      (args : Bytes)
      → Classified (codes "S " ∷ keyword ∷ codes " " ∷ args ∷ []) (status keyword args)
  unfolding classify
  classify_status_args args = rw (append-nil, parse_keyword_args keyword valid starts args)

  pub classify_inquire : Classified (codes "INQUIRE " ∷ keyword ∷ []) (inquire keyword [])
  unfolding classify
  classify_inquire = rw (append-nil, parse_keyword_plain keyword valid starts)

  pub classify_inquire_args :
      (args : Bytes)
      → Classified (codes "INQUIRE " ∷ keyword ∷ codes " " ∷ args ∷ []) (inquire keyword args)
  unfolding classify
  classify_inquire_args args = rw (append-nil, parse_keyword_args keyword valid starts args)
