-- ===== src/Protocol/Encode/Commands.antt =====
-- Commands through the encoder and back through their parser.
use assuan_library_rs.Prelude.{
  ℕ, ◌≡◌, refl, false, List, [], ◌∷◌, append-nil, Bytes, codes, length, any, concat, Result, ok,
  ok_or, >>=-eq-ok, ok_or-eq-ok,
}
use mathlib.Core.Path.{subst}
use assuan_library_rs.Protocol.Error.{ProtocolError, invalid_token}
use assuan_library_rs.Protocol.Utf8.{from_utf8}
use assuan_library_rs.Protocol.Command.{
  Command, is_forbidden, validate_line, validate_token, split_field, parse, new,
}
use assuan_library_rs.Protocol.Command.Fields.{
  validate_line-eq-ok, split_field-clean, from_utf8-eq-some, validate_line_clean,
  split_field-append, split_field_whole, validate_token-from_utf8, token-all-no_space,
}
use assuan_library_rs.Protocol.Encode.{max_line_bytes, write_parts, encode_command}
use assuan_library_rs.Protocol.Encode.Write.{Wrote, write_parts-Wrote, Wrote-sent, sent}

new-token : (name args : Bytes) (c : Command) → new name args ≡ ok c → validate_token name ≡ ok tt
unfolding new
new-token name args c v = (>>=-eq-ok (validate_token name) _ v).1

-- A validated command's text, alone on a line, is parsed to that command.
parse_text :
    (command : Command) (line : Bytes)
    → validate_token command.name ≡ ok tt
    → any is_forbidden line ≡ false
    → split_field line ≡ (command.name, command.args)
    → parse line ≡ ok command
unfolding parse
parse_text command line v clean s =
    rw (validate_line_clean line clean, s, v, validate_token-from_utf8 command.name v)

command_text : Command → Bytes → List Bytes
command_text c [] = c.name ∷ []
command_text c (x ∷ args) = c.name ∷ codes " " ∷ (x ∷ args) ∷ []

split-command_text :
    (c : Command) (args : Bytes)
    → validate_token c.name ≡ ok tt
    → split_field (concat (command_text c args)) ≡ (c.name, args)
unfolding command_text
split-command_text c [] v = rw append-nil (split_field_whole c.name (token-all-no_space c.name v))
split-command_text c (x ∷ args) v =
    rw append-nil (split_field-append c.name (x ∷ args) (token-all-no_space c.name v))

-- What a caller reads back of an encoded command.
abbrev pub CommandReadsBack : Command → Bytes → ℕ → Type 0
CommandReadsBack command output n =
    Wrote output (sent n (encode_command command output).0) n (encode_command command output)
    × (parse (sent n (encode_command command output).0) ≡ ok command)

encode_command_text :
    (c : Command) (output : Bytes) (args : Bytes)
    → c.args ≡ args
    → encode_command c output ≡ write_parts (command_text c args) output
unfolding encode_command command_text
encode_command_text c output [] e = rw e
encode_command_text c output (x ∷ args) e = rw e

-- With storage of the limit's size: a validated command that `encode_command` accepts is written as one line, within the limit and
-- without forbidden bytes, over the start of the storage, whose other bytes stay; and the parser
-- reads that line, less its line feed, back as the same command.
pub parse-encode_command :
    (command : Command) (output : Bytes) (n : ℕ)
    → length output ≡ max_line_bytes
    → new command.name command.args ≡ ok command
    → (encode_command command output).1 ≡ ok n
    → CommandReadsBack command output n
parse-encode_command command output n size v e =
    let same = encode_command_text command output command.args refl in
    let w = write_parts-Wrote (command_text command command.args) output n size (rw same at e) in
    let text = Wrote-sent w in
    let token = new-token command.name command.args command v in
    rw (same, text)
      (
        w,
        parse_text command (concat (command_text command command.args)) token w.clean
            (split-command_text command command.args token),
      )

ok-injective : {c d : Command} → ◌≡◌ {A = Result ProtocolError Command} (ok c) (ok d) → c ≡ d
ok-injective e = cc

-- Every command that the parser accepts passes the checks of `Command::new` unchanged, so it can be
-- built again from its name and arguments.
pub parse-new :
    (line : Bytes) (command : Command)
    → parse line ≡ ok command
    → new command.name command.args ≡ ok command
unfolding parse new
parse-new line command e =
    let (_, clean, e1) = >>=-eq-ok (validate_line line) _ e in
    let (_, token, e2) = >>=-eq-ok (validate_token (split_field line).0) _ e1 in
    let (name, read, e3) = >>=-eq-ok (ok_or (from_utf8 (split_field line).0) invalid_token) _ e2 in
    let same = from_utf8-eq-some (split_field line).0 (ok_or-eq-ok _ _ read) in
    let args =
      validate_line_clean (split_field line).1
        (split_field-clean line (validate_line-eq-ok line clean)).1 in
    subst (λ (z : Command). new z.name z.args ≡ ok z) (ok-injective e3)
      (rw (rw same at token, args))
