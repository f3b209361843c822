-- ===== src/Server/Registry/Laws.antt =====
-- crates/assuan-server/src/registry.rs: what a registration does to the registry.
use assuan_library_rs.Prelude.{
  ◌≡◌, ap, ◌∙◌, ◌⊎◌, inl, inr, none, some, ◌∷◌, Bytes, bytes_eq, if◌then◌else◌, ok, err, ◌>>◌,
  Option-cases, Result-cases,
}
use assuan_library_rs.Server.Error.{RegistryError, duplicate}
use assuan_library_rs.Server.Registry.{
  Handler, Registry, get, register, fill_entry, checked_entry, validate_name, validate_description,
}

module _ {F : Type 0} where
  -- A registration: refused, with the registry as it was; or the handler is found under its name, and
  -- all other names find what they found.
  pub register-get :
      (registry : Registry F) (handler : Handler F) (name : Bytes)
      → ((e : RegistryError) × (register registry handler ≡ (registry, err e)))
        ⊎ (((register registry handler).1 ≡ ok tt)
            × (get registry handler.name ≡ none)
            × (get (register registry handler).0 name
                ≡ (if bytes_eq handler.name name then some handler else get registry name)))
  unfolding register get
  register-get registry handler name =
      let checks = validate_name handler.name >> validate_description handler.description in
      elim (Result-cases checks) [
        | inr (e, m) ↦ inl (e, ap (λ z. checked_entry z registry handler) m)
        | inl (u, m) ↦ elim (Option-cases (get registry handler.name)) [
          | inr (old, g) ↦ inl (
            duplicate handler.name,
            ap (λ z. checked_entry z registry handler) m ∙ ap (fill_entry registry handler) g,
          )
          | inl g ↦
              let whole : register registry handler ≡ ((handler.name, handler) ∷ registry, ok tt) =
                ap (λ z. checked_entry z registry handler) m ∙ ap (fill_entry registry handler) g in
              inr (ap (λ z. z.1) whole, g, ap (λ z. get z.0 name) whole)
        ]
      ]
