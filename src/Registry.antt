-- ===== src/Registry.antt =====
-- pan-core/src/registry.rs: `CapabilityRegistry`. `by_id` is a `BTreeMap`.
pub mod Laws
use pan.Prelude.{
  ℕ, Bool, true, false, String, List, [], Option, length, if◌then◌else◌, Result, ok, err, ◌⧺◌,
}
use pan.Schema.{Capability}
use pan.Table.{Table, lookup as lookup_key, insert, contains, values}

pub record CapabilityRegistry : Type 0 where
  pub by_id : Table Capability

pub record ConflictError : Type 0 where
  pub id : String

-- `impl Display for ConflictError`
unfoldable pub conflict_text : ConflictError → String
conflict_text e = "id `" ⧺ e.id ⧺ "` is already registered (conflicts are errors, not last-wins)"

unfoldable pub new : CapabilityRegistry
new = record { by_id = [] }

-- A `&mut self` method with a result: the registry afterwards stands first in the pair.
unfoldable pub register :
    CapabilityRegistry → Capability → CapabilityRegistry × Result ConflictError (Unit {0})
register r cap =
    if contains cap.id r.by_id
    then (r, err (record { id = cap.id }))
    else (record { by_id = insert cap.id cap r.by_id }, ok tt)

unfoldable pub lookup : CapabilityRegistry → String → Option Capability
lookup r id = lookup_key id r.by_id

unfoldable pub all : CapabilityRegistry → List Capability
all r = values r.by_id

unfoldable pub len : CapabilityRegistry → ℕ
len r = length r.by_id

unfoldable pub is_empty : CapabilityRegistry → Bool
is_empty r = elim r.by_id [ [] ↦ true | _ ↦ false ]
