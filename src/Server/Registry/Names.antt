-- ===== src/Server/Registry/Names.antt =====
-- crates/assuan-server/src/registry.rs: the names and the descriptions that registration lets in.
use assuan_library_rs.Prelude.{
  ◌<◌, ◌≡◌, refl, true, false, ◌||◌, Option, none, some, [], ◌∷◌, Bytes, codes, bytes_eq, length,
  any, all, leb, not, get_or, is_empty, ◌&&◌, if◌then◌else◌, arith, Result, ok, err, ◌>>◌, ◌>>=◌,
  ◌==◌, >>=-eq-ok,
}
use assuan_library_rs.Protocol.Error.{ProtocolError}
use assuan_library_rs.Protocol.Command.{Command, is_forbidden}
use assuan_library_rs.Protocol.Command
use assuan_library_rs.Protocol.Encode.{max_line_bytes}
use assuan_library_rs.Server.Error.{RegistryError, invalid_name, reserved}
use assuan_library_rs.Server.Registry.{
  Handler, Registry, get, register, fill_entry, checked_entry, or_else, is_builtin, validate_name,
  validate_description,
}

-- A name that a client can send as a command of its own, and that the session does not answer itself.
pub record IsName (name : Bytes) : Type 0 where
  pub present : is_empty name ≡ false
  pub not_comment : (get_or name 0 0 == b'#') ≡ false
  pub printed : all (λ b. (leb 33 b && leb b 126) && not (b == b'%')) name ≡ true
  pub short : length name < max_line_bytes
  pub not_nop : bytes_eq name (codes "NOP") ≡ false
  pub not_bye : bytes_eq name (codes "BYE") ≡ false
  pub not_help : bytes_eq name (codes "HELP") ≡ false
  pub not_reset : bytes_eq name (codes "RESET") ≡ false
  pub not_option : bytes_eq name (codes "OPTION") ≡ false

-- A text of any length without a NUL, a carriage return or a line feed.
abbrev pub IsText : Bytes → Type 0
IsText text = any (λ b. (b == 0) || (b == 13) || (b == 10)) text ≡ false

-- A token: one byte at least, all of them from `!` to `~` and none an escape's, the first no comment's.
new-token :
    (name : Bytes) (command : Command)
    → Command.new name [] ≡ ok command
    → (is_empty name ≡ false)
      × ((get_or name 0 0 == b'#') ≡ false)
      × (all (λ b. (leb 33 b && leb b 126) && not (b == b'%')) name ≡ true)
unfolding Command.new Command.validate_token
new-token name command e = ground arith

checked-IsName :
    (name : Bytes) (r : Result ProtocolError Command)
    → Command.new name [] ≡ r
    → ◌≡◌ {A = Result RegistryError (Unit {0})}
        (or_else r invalid_name >>= λ c.
          if leb max_line_bytes (length name)
          then err invalid_name
          else if is_builtin name
          then err (reserved name)
          else ok tt)
        (ok tt)
    → IsName name
checked-IsName name (ok command) e h =
    let (present, not_comment, printed) = new-token name command e in
    record {
      present = present;
      not_comment = not_comment;
      printed = printed;
      short = ground arith;
      not_nop = ground arith;
      not_bye = ground arith;
      not_help = ground arith;
      not_reset = ground arith;
      not_option = ground arith;
    }
checked-IsName name (err x) e h = cc

validate_name-IsName : (name : Bytes) → validate_name name ≡ ok tt → IsName name
unfolding validate_name
validate_name-IsName name h = checked-IsName name (Command.new name []) refl h

validate_description-IsText : (text : Bytes) → validate_description text ≡ ok tt → IsText text
unfolding validate_description
validate_description-IsText text h = ground arith

module _ {F : Type 0} where
  -- Every key is a name, with a text for its description, and stands before no entry of the same name.
  abbrev pub IsValid : Registry F → Type 0
  IsValid [] = Unit
  IsValid ((key, handler) ∷ entries) =
      IsName key × IsText handler.description × (get entries key ≡ none) × IsValid entries

  entry-IsValid :
      (registry : Registry F) (handler : Handler F) (o : Option (Handler F))
      → IsName handler.name
      → IsText handler.description
      → get registry handler.name ≡ o
      → IsValid registry
      → IsValid (fill_entry registry handler o).0
  entry-IsValid registry handler (some old) name text g v = v
  entry-IsValid registry handler none name text g v = (name, text, g, v)

  checked-IsValid :
      (registry : Registry F) (handler : Handler F) (r : Result RegistryError (Unit {0}))
      → validate_name handler.name >> validate_description handler.description ≡ r
      → IsValid registry
      → IsValid (checked_entry r registry handler).0
  checked-IsValid registry handler (err e) h v = v
  checked-IsValid registry handler (ok u) h v =
      let (done, named, described) =
        >>=-eq-ok (validate_name handler.name) (λ done. validate_description handler.description)
          h in
      entry-IsValid registry handler (get registry handler.name)
        (validate_name-IsName handler.name named)
        (validate_description-IsText handler.description described) refl v

  -- A registration, refused or not, keeps the registry valid: each key is a token (one byte at least,
  -- all from `!` to `~`, none of them `%`, the first not `#`) shorter than a line and none of NOP, BYE,
  -- HELP, RESET and OPTION, each description is free of NUL, CR and LF, whatever its length, and no
  -- name is registered twice.
  pub register-IsValid :
      (registry : Registry F) (handler : Handler F)
      → IsValid registry
      → IsValid (register registry handler).0
  unfolding register
  register-IsValid registry handler v =
      checked-IsValid registry handler
        (validate_name handler.name >> validate_description handler.description) refl v
