-- ===== src/Toolbox/Laws.antt =====
-- Who executes a capability after a provider was added.
use pan.Prelude.{
  ℕ, zero, suc, ◌<◌, ◌≡◌, refl, Bool, String, List, [], ◌∷◌, ◌++◌, some, ok, err, arith, inl, inr,
  any, length, length-append, get_elem?, Option-cases, Bool-cases, str_eq, if◌then◌else◌,
}
use pan.Schema.{Capability}
use pan.Table.{Table, lookup, insert, lookup-insert}
use pan.Toolbox.{CapabilityProvider, Toolbox, first_taken, own, add, provider_of}

-- Whether one of the capabilities has the id.
abbrev pub provides : String → List Capability → Bool
provides id cs = any (λ c. str_eq c.id id) cs

lookup-own :
    (n : ℕ) (cs : List Capability) (owner : Table ℕ) (id : String)
    → lookup id (own n cs owner) ≡ (if provides id cs then some n else lookup id owner)
unfolding own
lookup-own n [] owner id = refl
lookup-own n (c ∷ cs) owner id =
    let rest = lookup-own n cs (insert c.id n owner) id in
    let here = lookup-insert c.id id n owner in ground (arith, rest, here)

module _ {ℓ} {A : Type ℓ} where
  get_elem?-append_end : (xs : List A) (x : A) → get_elem? (xs ++ x ∷ []) (length xs) ≡ some x
  get_elem?-append_end [] x = refl
  get_elem?-append_end (y ∷ xs) x = get_elem?-append_end xs x

  get_elem?-append_before :
      (xs ys : List A) (i : ℕ) → i < length xs → get_elem? (xs ++ ys) i ≡ get_elem? xs i
  get_elem?-append_before [] ys i h = absurd (omega arith)
  get_elem?-append_before (x ∷ xs) ys zero h = refl
  get_elem?-append_before (x ∷ xs) ys (suc i) h = get_elem?-append_before xs ys i (omega arith)

module _ {W : Type 0} where
  -- Every owner is the index of a provider.
  abbrev pub IsIndexed : Toolbox W → Type 0
  IsIndexed t = (id : String) (i : ℕ) → lookup id t.owner ≡ some i → i < length t.providers

  -- An index of a toolbox stays in range, whether the provider is added or refused.
  pub add-IsIndexed :
      (t : Toolbox W) (p : CapabilityProvider W) → IsIndexed t → IsIndexed (add t p).0
  unfolding add
  add-IsIndexed t p h id i e = elim (Option-cases (first_taken t.owner p.capabilities)) [
    | inr (x, f) ↦ let old = h id i (ground arith) in ground arith
    | inl f ↦
        let k = lookup-own (length t.providers) p.capabilities t.owner id in
        let n = length-append t.providers (p ∷ []) in
        let old = h id i in
        elim (Bool-cases (provides id p.capabilities)) [
          | inl m ↦ ground arith
          | inr m ↦ let lt = old (ground arith) in ground arith
        ]
  ]

  provider_of-added :
      (t : Toolbox W) (p : CapabilityProvider W) (id : String)
      → IsIndexed t
      → provider_of
          (record {
            providers = t.providers ++ p ∷ [];
            owner = own (length t.providers) p.capabilities t.owner;
          })
          id
        ≡ (if provides id p.capabilities then some p else provider_of t id)
  unfolding provider_of
  provider_of-added t p id h =
      let k = lookup-own (length t.providers) p.capabilities t.owner id in
      rw (k, provider_of)
        (elim (Bool-cases (provides id p.capabilities)) [
          | inl m ↦ rw m (get_elem?-append_end t.providers p)
          | inr m ↦
              rw (m, provider_of)
                (elim (Option-cases (lookup id t.owner)) [
                  | inl e ↦ rw (e, provider_of)
                  | inr (i, e) ↦
                      rw (e, provider_of)
                        (get_elem?-append_before t.providers (p ∷ []) i (h id i e))
                ])
        ])

  -- Once a provider is added, its capabilities are executed by it and all others by the provider
  -- that executed them before; a refused provider changes nothing.
  pub provider_of-add :
      (t : Toolbox W) (p : CapabilityProvider W) (id : String)
      → IsIndexed t
      → provider_of (add t p).0 id ≡ (elim (add t p).1 [
        | ok _ ↦ if provides id p.capabilities then some p else provider_of t id
        | err _ ↦ provider_of t id
      ])
  unfolding add provider_of
  provider_of-add t p id h = elim (Option-cases (first_taken t.owner p.capabilities)) [
    | inr (x, f) ↦ rw (f, add) refl
    | inl f ↦ rw (f, add) (provider_of-added t p id h)
  ]
