-- ===== src/Components.antt =====
-- pan-core/src/components.rs: the factories of components by their ids, one table for each family.
pub mod Laws
use pan.Prelude.{ℕ, Bool, true, String, Option, none, some, Result, ok, err, if◌then◌else◌, ◌⧺◌}
use pan.Json.{Value, null}
use pan.Table.{Table, lookup, insert, contains}
use pan.Governor.{Governor}
use pan.Pipeline.{Executor}
use pan.Loop.{Provider}
use pan.Toolbox.{CapabilityProvider}

pub record ComponentConfig : Type 0 where
  pub id : String
  pub settings : Value

-- `ComponentConfig::bare`
unfoldable pub bare : String → ComponentConfig
bare id = record { id = id; settings = null }

-- The family comes before the id.
pub data ComponentError : Type 0 where
  unknown conflict construction : String → String → ComponentError

-- `impl Display for ComponentError`
unfoldable pub component_error_text : ComponentError → String
component_error_text (unknown family id) =
    "no " ⧺ family ⧺ " component registered under id `" ⧺ id ⧺ "`"
component_error_text (conflict family id) =
    family ⧺ " id `" ⧺ id ⧺ "` is already registered (conflicts are errors, not last-wins)"
component_error_text (construction id reason) = "component `" ⧺ id ⧺ "` failed to build: " ⧺ reason

abbrev pub Factory : Type 0 → Type 0
Factory A = ComponentConfig → Result ComponentError A

module _ {A : Type 0} where
  unfoldable pub insert_unique :
      String
      → Table (Factory A)
      → String
      → Factory A
      → Result ComponentError (Unit {0}) × Table (Factory A)
  unfolding contains insert
  insert_unique family table id factory =
      if contains id table
      then (err (conflict family id), table)
      else (ok tt, insert id factory table)

  unfoldable pub build : String → Table (Factory A) → ComponentConfig → Result ComponentError A
  unfolding lookup
  build family table cfg = elim (lookup cfg.id table) [
    | some factory ↦ factory cfg
    | none ↦ err (unknown family cfg.id)
  ]

-- `C` is the trait `ContextAssembler`.
pub record ComponentRegistry (W C : Type 0) : Type 0 where
  pub providers : Table (Factory (Provider W))
  pub governors : Table (Factory (Governor W))
  pub executors : Table (Factory (Executor W))
  pub capability_providers : Table (Factory (CapabilityProvider W))
  pub context_assemblers : Table (Factory C)

abbrev pub Registered : Type 0 → Type 0 → Type 0
Registered W C = Result ComponentError (Unit {0}) × ComponentRegistry W C

module _ {W C : Type 0} where
  unfoldable pub register_provider :
      ComponentRegistry W C → String → Factory (Provider W) → Registered W C
  unfolding insert_unique
  register_provider r id factory =
      let (result, t) = insert_unique "provider" r.providers id factory in
      (result, record r { providers = t })

  unfoldable pub register_governor :
      ComponentRegistry W C → String → Factory (Governor W) → Registered W C
  unfolding insert_unique
  register_governor r id factory =
      let (result, t) = insert_unique "governor" r.governors id factory in
      (result, record r { governors = t })

  unfoldable pub register_executor :
      ComponentRegistry W C → String → Factory (Executor W) → Registered W C
  unfolding insert_unique
  register_executor r id factory =
      let (result, t) = insert_unique "executor" r.executors id factory in
      (result, record r { executors = t })

  unfoldable pub register_capability_provider :
      ComponentRegistry W C → String → Factory (CapabilityProvider W) → Registered W C
  unfolding insert_unique
  register_capability_provider r id factory =
      let (result, t) = insert_unique "capability" r.capability_providers id factory in
      (result, record r { capability_providers = t })

  unfoldable pub register_context_assembler :
      ComponentRegistry W C → String → Factory C → Registered W C
  unfolding insert_unique
  register_context_assembler r id factory =
      let (result, t) = insert_unique "context_assembler" r.context_assemblers id factory in
      (result, record r { context_assemblers = t })

  unfoldable pub build_provider :
      ComponentRegistry W C → ComponentConfig → Result ComponentError (Provider W)
  unfolding build
  build_provider r cfg = build "provider" r.providers cfg

  unfoldable pub build_governor :
      ComponentRegistry W C → ComponentConfig → Result ComponentError (Governor W)
  unfolding build
  build_governor r cfg = build "governor" r.governors cfg

  unfoldable pub build_executor :
      ComponentRegistry W C → ComponentConfig → Result ComponentError (Executor W)
  unfolding build
  build_executor r cfg = build "executor" r.executors cfg

  unfoldable pub build_capability_provider :
      ComponentRegistry W C → ComponentConfig → Result ComponentError (CapabilityProvider W)
  unfolding build
  build_capability_provider r cfg = build "capability" r.capability_providers cfg

  unfoldable pub build_context_assembler :
      ComponentRegistry W C → ComponentConfig → Result ComponentError C
  unfolding build
  build_context_assembler r cfg = build "context_assembler" r.context_assemblers cfg
