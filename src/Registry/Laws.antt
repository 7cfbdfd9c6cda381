-- ===== src/Registry/Laws.antt =====
-- What `register` does to what `lookup` finds: a taken id is a conflict, never overwritten.
use pan.Prelude.{
  suc, ◌≡◌, refl, ◌⊎◌, inl, inr, Option-cases, String, [], ◌∷◌, none, some, ok, err, arith, str_eq,
  eq_iff, if◌then◌else◌, length, ◌+◌,
}
use pan.Schema.{Capability}
use pan.Table.{Table, contains, insert, lookup as lookup_key, lookup-insert}
use pan.Registry.{CapabilityRegistry, register, lookup, len}

-- A registered capability stays as it is, whatever is registered later.
pub lookup-register_kept :
    (r : CapabilityRegistry) (cap c : Capability) (id : String)
    → lookup r id ≡ some c
    → lookup (register r cap).0 id ≡ some c
unfolding lookup register contains
lookup-register_kept r cap c id h =
    ground (arith, lookup-insert cap.id id cap r.by_id, eq_iff cap.id id)

-- Registration fails exactly on a taken id, and then changes nothing; otherwise the new capability
-- is found under its id, and every other id is found as before.
pub register_cases :
    (r : CapabilityRegistry) (cap : Capability)
    → ((c : Capability) × (lookup r cap.id ≡ some c)
        × (register r cap ≡ (r, err (record { id = cap.id }))))
      ⊎ ((lookup r cap.id ≡ none)
          × ((register r cap).1 ≡ ok tt)
          × ((id : String)
              → lookup (register r cap).0 id
                ≡ (if str_eq cap.id id then some cap else lookup r id)))
unfolding lookup register contains
register_cases r cap = elim (Option-cases (lookup_key cap.id r.by_id)) [
  | inl e ↦ inr (e, ground arith, λ id. ground (arith, lookup-insert cap.id id cap r.by_id))
  | inr (c, e) ↦ inl (c, e, ground arith)
]

length-insert_new {ℓ} :
    {V : Type ℓ} (k : String) (v : V) (m : Table V)
    → lookup_key k m ≡ none
    → length (insert k v m) ≡ suc (length m)
unfolding lookup_key insert
length-insert_new k v [] h = refl
length-insert_new k v ((j, w) ∷ m) h =
    ground (arith, eq_iff j k, eq_iff k j, length-insert_new k v m)

-- The number of capabilities grows by one exactly when the registration succeeds.
pub len-register :
    (r : CapabilityRegistry) (cap : Capability)
    → len (register r cap).0 ≡ (elim (register r cap).1 [ ok _ ↦ len r + 1 | err _ ↦ len r ])
unfolding register len contains
len-register r cap = ground (arith, length-insert_new cap.id cap r.by_id)
