-- ===== src/Toolbox.antt =====
-- pan-core/src/toolbox.rs: the executor that hands each capability to the component that owns it.
pub mod Laws
use pan.Prelude.{
  ℕ, String, List, [], ◌∷◌, ◌++◌, Option, none, some, Result, ok, err, map_ok, length, get_elem?,
  if◌then◌else◌, ◌⧺◌,
}
use pan.Json.{Value}
use pan.Schema.{Capability}
use pan.Table.{Table, lookup, insert, keys, contains}
use pan.Registry.{CapabilityRegistry, ConflictError}
use pan.Registry
use pan.Pipeline.{Task, finish, Executor}

-- `trait CapabilityProvider`
pub record CapabilityProvider (W : Type 0) : Type 0 where
  pub id : String
  pub capabilities : List Capability
  pub execute : String → Value → W → Result String Value × W
  pub execute_with_invoker : String → Value → W → Task W

-- `owner` holds the index of a capability's provider.
pub record Toolbox (W : Type 0) : Type 0 where
  pub providers : List (CapabilityProvider W)
  pub owner : Table ℕ

-- The first id that has an owner already.
unfoldable pub first_taken : Table ℕ → List Capability → Option String
first_taken owner [] = none
first_taken owner (c ∷ cs) =
    let rest = first_taken owner cs in if contains c.id owner then some c.id else rest

unfoldable pub own : ℕ → List Capability → Table ℕ → Table ℕ
own index [] owner = owner
own index (c ∷ cs) owner = own index cs (insert c.id index owner)

-- A failed registration is ignored.
unfoldable pub register_all : List Capability → CapabilityRegistry → CapabilityRegistry
unfolding Registry.register
register_all [] r = r
register_all (c ∷ cs) r = register_all cs (Registry.register r c).0

unfoldable pub missing : String → String
missing capability = "no capability component provides `" ⧺ capability ⧺ "`"

module _ {W : Type 0} where
  unfoldable pub new : Toolbox W
  new = record { providers = []; owner = [] }

  unfoldable pub add :
      Toolbox W → CapabilityProvider W → Toolbox W × Result ConflictError (Unit {0})
  unfolding first_taken own
  add t p = elim (first_taken t.owner p.capabilities) [
    | some id ↦ (t, err (record { id = id }))
    | none ↦ (
      record {
        providers = t.providers ++ p ∷ [];
        owner = own (length t.providers) p.capabilities t.owner;
      },
      ok tt,
    )
  ]

  -- `Toolbox::with`
  unfoldable pub with_provider : Toolbox W → CapabilityProvider W → Result ConflictError (Toolbox W)
  unfolding add
  with_provider t p = let (t', r) = add t p in map_ok (λ _. t') r

  unfoldable pub register_providers :
      List (CapabilityProvider W) → CapabilityRegistry → CapabilityRegistry
  unfolding register_all
  register_providers [] r = r
  register_providers (p ∷ ps) r = register_providers ps (register_all p.capabilities r)

  unfoldable pub registry : Toolbox W → CapabilityRegistry
  unfolding register_providers Registry.new
  registry t = register_providers t.providers Registry.new

  unfoldable pub capability_ids : Toolbox W → List String
  unfolding keys
  capability_ids t = keys t.owner

  -- The provider that owns the capability; an index outside of the list would be a panic.
  unfoldable pub provider_of : Toolbox W → String → Option (CapabilityProvider W)
  unfolding lookup
  provider_of t capability = elim (lookup capability t.owner) [
    | none ↦ none
    | some index ↦ get_elem? t.providers index
  ]

  -- `impl Executor for Toolbox`
  unfoldable pub executor : Toolbox W → Executor W
  unfolding provider_of missing
  executor t = record {
    execute = λ capability args w. elim (provider_of t capability) [
      | some p ↦ p.execute capability args w
      | none ↦ (err (missing capability), w)
    ];
    execute_with_invoker = λ capability args w. elim (provider_of t capability) [
      | some p ↦ p.execute_with_invoker capability args w
      | none ↦ finish (err (missing capability)) w
    ];
  }
