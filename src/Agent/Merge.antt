-- ===== src/Agent/Merge.antt =====
-- pan-agent/src/merge.rs: the settings of a component, the agent's over those of the configuration.
pub mod Laws
use pan.Prelude.{String, List, [], ◌∷◌, Option, none, some, Result, ok, err, bind, unwrap_or}
use pan.Json.{Value, null, text}
use pan.Json.Build.{object_of}
use pan.Table.{Table, lookup, insert}
use pan.Config.{Config}
use pan.Agent.Manifest.{AgentManifest}

-- What the crates toml and serde_json provide: `serde_json::to_value`, `Value::String`,
-- `Value::as_str` and `Value::as_table`.
pub record TomlValues (T : Type 0) : Type 0 where
  pub to_value : T → Result String Value
  pub string : String → T
  pub as_str : T → Option String
  pub as_table : T → Option (Table T)

module _ {T : Type 0} (values : TomlValues T) where
  -- Also `toml_to_json` of pan-agent/src/assembler.rs
  unfoldable pub toml_value_to_json : T → Value
  toml_value_to_json v = elim (values.to_value v) [ ok j ↦ j | err e ↦ null ]

  -- The loop that inserts each entry of a table.
  unfoldable pub insert_each : Table T → Table Value → Table Value
  unfolding insert toml_value_to_json
  insert_each [] out = out
  insert_each ((k, v) ∷ rest) out = insert_each rest (insert k (toml_value_to_json v) out)

  unfoldable pub toml_table_to_json : Table T → Value
  unfolding insert_each
  toml_table_to_json table = object_of (insert_each table [])

  unfoldable pub merge_global : Config T → String → Table T → Value
  unfolding insert_each lookup
  merge_global global id agent_settings = object_of (
      insert_each agent_settings
        (elim (lookup id global.plugin) [ some table ↦ insert_each table [] | none ↦ [] ]))

  unfoldable pub merged : Option (Config T) → String → Table T → Value
  unfolding merge_global toml_table_to_json
  merged (some cfg) id agent_table = merge_global cfg id agent_table
  merged none id agent_table = toml_table_to_json agent_table

  -- `for (k, v) in settings { table.insert(k.clone(), v.clone()) }`
  unfoldable pub copy_each : Table T → Table T → Table T
  unfolding insert
  copy_each [] out = out
  copy_each ((k, v) ∷ rest) out = copy_each rest (insert k v out)

  -- The table that stands for `[persona]`.
  unfoldable pub persona_table : AgentManifest T → Table T
  unfolding insert copy_each
  persona_table m =
      let named = insert "instruction" (values.string m.persona.instruction) [] in
      copy_each m.persona.settings (elim m.persona.model [
        | some model ↦ insert "model" (values.string model) named
        | none ↦ named
      ])

  unfoldable pub merge_provider_settings : Option (Config T) → AgentManifest T → Value
  unfolding merged persona_table
  merge_provider_settings global m = merged global m.persona.provider (persona_table m)

  -- The settings of a capability, where they are a table.
  unfoldable pub cap_table : AgentManifest T → String → Table T
  unfolding lookup
  cap_table m cap_id = unwrap_or (bind (lookup cap_id m.caps.settings) values.as_table) []

  unfoldable pub merge_cap_settings : Option (Config T) → AgentManifest T → String → Value
  unfolding merged cap_table
  merge_cap_settings global m cap_id = merged global cap_id (cap_table m cap_id)
