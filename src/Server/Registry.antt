-- ===== src/Server/Registry.antt =====
-- crates/assuan-server/src/registry.rs: handlers under their names. The hash map is an association
-- list; the order in which its entries are listed is that of the list. `F` is the type
-- of the handlers' functions.
pub mod Laws
pub mod Names
use assuan_library_rs.Prelude.{
  ℕ, Bool, true, false, ◌||◌, Option, none, some, List, [], ◌∷◌, ◌++◌, Bytes, codes, bytes_eq,
  length, any, ltb, leb, if◌then◌else◌, Result, ok, err, ◌>>◌, ◌>>=◌,
}
use assuan_library_rs.Protocol.Error.{ProtocolError}
use assuan_library_rs.Protocol.Command.{is_forbidden, Command}
use assuan_library_rs.Protocol.Command
use assuan_library_rs.Protocol.Encode.{max_line_bytes}
use assuan_library_rs.Server.Error.{
  RegistryError, invalid_name, invalid_description, reserved, duplicate,
}

abbrev pub is_builtin : Bytes → Bool
is_builtin name =
    bytes_eq name (codes "NOP")
    || bytes_eq name (codes "BYE")
    || bytes_eq name (codes "HELP")
    || bytes_eq name (codes "RESET")
    || bytes_eq name (codes "OPTION")

-- `map_err`, where every error is replaced by one.
abbrev pub or_else {ℓ κ μ} : {E : Type ℓ} {F : Type κ} {A : Type μ} → Result E A → F → Result F A
or_else (ok a) f = ok a
or_else (err e) f = err f

unfoldable pub validate_name : Bytes → Result RegistryError (Unit {0})
validate_name name = do
  _ ← or_else (Command.new name []) invalid_name
  if leb max_line_bytes (length name)
      then err invalid_name
      else if is_builtin name
      then err (reserved name)
      else ok tt

unfoldable pub validate_description : Bytes → Result RegistryError (Unit {0})
validate_description value = if any is_forbidden value then err invalid_description else ok tt

-- `ClosureHandler`; the methods `name` and `description` of the trait `Handler` are its fields.
pub record Handler {ℓ} (F : Type ℓ) : Type ℓ where
  pub name : Bytes
  pub description : Bytes
  pub function : F

abbrev pub Registry {ℓ} : Type ℓ → Type ℓ
Registry F = List (Bytes × Handler F)

module _ {ℓ} {F : Type ℓ} where
  -- `self.handlers.get(name)`.
  unfoldable pub get : Registry F → Bytes → Option (Handler F)
  get [] name = none
  get ((key, handler) ∷ entries) name = if bytes_eq key name then some handler else get entries name

  -- `entry(name)`: an occupied entry is refused, and a vacant one filled.
  abbrev pub fill_entry :
      Registry F → Handler F → Option (Handler F) → Registry F × Result RegistryError (Unit {0})
  fill_entry registry handler (some occupied) = (registry, err (duplicate handler.name))
  fill_entry registry handler none = ((handler.name, handler) ∷ registry, ok tt)

  abbrev pub checked_entry :
      Result RegistryError (Unit {0})
      → Registry F
      → Handler F
      → Registry F × Result RegistryError (Unit {0})
  checked_entry (err e) registry handler = (registry, err e)
  checked_entry (ok u) registry handler = fill_entry registry handler (get registry handler.name)

  unfoldable pub register : Registry F → Handler F → Registry F × Result RegistryError (Unit {0})
  unfolding validate_name validate_description
  register registry handler =
      checked_entry (validate_name handler.name >> validate_description handler.description)
        registry handler

  unfoldable pub handler : Bytes → Bytes → F → Result RegistryError (Handler F)
  unfolding validate_name validate_description
  handler name description function = do
    validate_name name
    validate_description description
    ok (record { name = name; description = description; function = function })
