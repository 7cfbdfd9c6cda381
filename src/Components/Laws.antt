-- ===== src/Components/Laws.antt =====
-- Which factory builds a component.
use pan.Prelude.{
  ◌≡◌, refl, String, List, [], ◌∷◌, Option, none, some, Result, err, if◌then◌else◌, inl, inr,
  Bool-cases, str_eq, eq_iff, sym, ap, ◌∙◌, arith, Option-cases,
}
use pan.Table.{Table, lookup, contains, lookup-insert}
use pan.Governor.{Governor}
use pan.Components.{
  ComponentConfig, ComponentError, unknown, Factory, insert_unique, build, ComponentRegistry,
  register_governor, build_governor,
}

module _ {W : Type 0} where
  -- The first factory of the list under an id.
  unfoldable pub first_under :
      String → List (String × Factory (Governor W)) → Option (Factory (Governor W))
  first_under id [] = none
  first_under id ((key, factory) ∷ more) =
      if str_eq key id then some factory else first_under id more

  lookup-insert_unique :
      (table : Table (Factory (Governor W))) (key id : String) (f : Factory (Governor W))
      → lookup id (insert_unique "governor" table key f).1 ≡ (elim (lookup id table) [
        | some g ↦ some g
        | none ↦ if str_eq key id then some f else none
      ])
  unfolding insert_unique contains
  lookup-insert_unique table key id f = elim (Option-cases (lookup key table)) [
    | inl e ↦ elim (Option-cases (lookup id table)) [
      | inl o ↦ rw (e, lookup-insert key id f table, o, insert_unique, contains) refl
      | inr (g, o) ↦ elim (Bool-cases (str_eq key id)) [
        | inl s ↦
            let clash : none ≡ some g =
              sym e ∙ ap (λ k. lookup k table) ((eq_iff key id).0 s) ∙ o in
            ground arith
        | inr s ↦ rw (e, lookup-insert key id f table, s, o, insert_unique, contains) refl
      ]
    ]
    | inr (h, e) ↦ elim (Option-cases (lookup id table)) [
      | inl o ↦ elim (Bool-cases (str_eq key id)) [
        | inl s ↦
            let clash : some h ≡ none =
              sym e ∙ ap (λ k. lookup k table) ((eq_iff key id).0 s) ∙ o in
            ground arith
        | inr s ↦ rw (e, o, s, insert_unique, contains) refl
      ]
      | inr (g, o) ↦ rw (e, o, insert_unique, contains) refl
    ]
  ]

  -- What is in the registry, and else the first of the list.
  unfoldable pub or_first :
      Option (Factory (Governor W))
      → Option (Factory (Governor W))
      → ComponentConfig
      → Result ComponentError (Governor W)
  or_first (some g) o cfg = g cfg
  or_first none (some g) cfg = g cfg
  or_first none none cfg = err (unknown "governor" cfg.id)

module _ {W C : Type 0} where
  -- A registry after governors have been registered in turn, the refused ones too.
  unfoldable pub registering :
      List (String × Factory (Governor W)) → ComponentRegistry W C → ComponentRegistry W C
  unfolding register_governor
  registering [] r = r
  registering ((id, factory) ∷ more) r = registering more (register_governor r id factory).1

  -- After any run of registrations a governor is built by the factory that the registry had under its
  -- id, else by the first that was registered under it, never by a later one; and by none only where
  -- none was registered.
  pub build_governor-registering :
      (more : List (String × Factory (Governor W))) (r : ComponentRegistry W C)
      (cfg : ComponentConfig)
      → build_governor (registering more r) cfg
        ≡ or_first (lookup cfg.id r.governors) (first_under cfg.id more) cfg
  unfolding build_governor build registering first_under or_first register_governor
  build_governor-registering [] r cfg = elim (Option-cases (lookup cfg.id r.governors)) [
    | inl e ↦ rw (e, or_first, build) refl
    | inr (g, e) ↦ rw (e, or_first, build) refl
  ]
  build_governor-registering ((key, f) ∷ more) r cfg =
      let behind = build_governor-registering more (register_governor r key f).1 cfg in
      let found = lookup-insert_unique r.governors key cfg.id f in
      elim (Option-cases (lookup cfg.id r.governors)) [
        | inl e ↦ elim (Bool-cases (str_eq key cfg.id)) [
          | inl s ↦ behind ∙ rw (found, e, s) refl
          | inr s ↦ behind ∙ rw (found, e, s) refl
        ]
        | inr (g, e) ↦ behind ∙ rw (found, e) refl
      ]
