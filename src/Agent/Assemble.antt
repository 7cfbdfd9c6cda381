-- ===== src/Agent/Assemble.antt =====
-- pan-agent/src/assembler.rs: an agent built of the components that its manifest names.
pub mod Authority
use pan.Prelude.{
  String, List, [], ◌∷◌, Option, none, some, Result, ok, err, and_then, map_err, bind, ◌⧺◌,
}
use pan.Json.{Value, null, text}
use pan.Json.Build.{object_of}
use pan.Schema.{Scope}
use pan.Table.{Table, lookup, insert}
use pan.Registry.{ConflictError, conflict_text}
use pan.Governor.Scoped.{ScopedGovernor, grant, scoped}
use pan.Governor.Scoped as Scoped
use pan.Pipeline.{Pipeline, EffectHook}
use pan.Loop.{Provider}
use pan.Toolbox.{Toolbox, CapabilityProvider, add, registry, executor}
use pan.Toolbox
use pan.Components.{
  ComponentConfig, ComponentError, ComponentRegistry, bare, build_provider,
  build_capability_provider, build_context_assembler, component_error_text,
}
use pan.Config.{Config}
use pan.Agent.Manifest.{
  AgentManifest, ManifestError, origin, granted_prefixes, from_toml, manifest_error_text,
}
use pan.Agent.Merge.{
  TomlValues, toml_value_to_json, insert_each, merge_provider_settings, merge_cap_settings,
}

pub record AssembledAgent (W C : Type 0) : Type 0 where
  pub name : String
  pub instruction : String
  pub scope : Scope
  pub governor : ScopedGovernor
  pub provider : Provider W
  pub toolbox : Toolbox W
  pub context_assembler : Option C

pub data AssembleError : Type 0 where
  manifest : ManifestError → AssembleError
  provider capability context_assembler : ComponentError → AssembleError
  capability_conflict : ConflictError → AssembleError

-- `impl Display for AssembleError`
unfoldable pub assemble_error_text : AssembleError → String
unfolding manifest_error_text component_error_text conflict_text
assemble_error_text (manifest e) = manifest_error_text e
assemble_error_text (provider e) = "assembling provider: " ⧺ component_error_text e
assemble_error_text (capability e) = "assembling capability: " ⧺ component_error_text e
assemble_error_text (capability_conflict e) = "capability conflict: " ⧺ conflict_text e
assemble_error_text (context_assembler e) = "context assembler: " ⧺ component_error_text e

module _ {T : Type 0} (values : TomlValues T) where
  -- `settings.get("context").and_then(|v| v.as_str())`
  unfoldable pub context_id : AgentManifest T → Option String
  unfolding lookup
  context_id m = bind (lookup "context" m.persona.settings) values.as_str

  unfoldable pub persona_settings : AgentManifest T → Value
  unfolding insert insert_each
  persona_settings m =
      let named = insert "instruction" (text m.persona.instruction) [] in
      object_of (
        insert_each values m.persona.settings
          (elim m.persona.model [ some model ↦ insert "model" (text model) named | none ↦ named ]))

  unfoldable pub plain_cap_settings : AgentManifest T → String → Value
  unfolding lookup toml_value_to_json
  plain_cap_settings m id = elim (lookup id m.caps.settings) [
    | some v ↦ toml_value_to_json values v
    | none ↦ null
  ]

module _ {W C : Type 0} (components : ComponentRegistry W C) where
  -- The loop over `caps.enable`, where `settings` gives the configuration of each.
  unfoldable pub add_each :
      (String → Value) → List String → Toolbox W → Result AssembleError (Toolbox W)
  unfolding build_capability_provider add
  add_each settings [] toolbox = ok toolbox
  add_each settings (id ∷ ids) toolbox =
      let cfg : ComponentConfig = record { id = id; settings = settings id } in
      and_then (map_err capability (build_capability_provider components cfg)) λ component.
        let (toolbox', added) = add toolbox component in
        and_then (map_err capability_conflict added) λ _. add_each settings ids toolbox'

  -- `Option<Result<…>>::transpose` of the optional context assembler.
  unfoldable pub build_optional : Option String → Result AssembleError (Option C)
  unfolding build_context_assembler bare
  build_optional none = ok none
  build_optional (some id) =
      and_then (map_err context_assembler (build_context_assembler components (bare id)))
        λ c. ok (some c)

  module _ {T : Type 0} (values : TomlValues T) where
    -- What both assemblers do with the settings of the provider and of the capabilities.
    unfoldable pub assemble_from :
        AgentManifest T → Value → (String → Value) → Result AssembleError (AssembledAgent W C)
    unfolding origin granted_prefixes grant Scoped.new build_provider add_each build_optional
        context_id Toolbox.new
    assemble_from m provider_settings cap_settings =
        let cfg : ComponentConfig = record {
          id = m.persona.provider;
          settings = provider_settings;
        } in
        and_then (map_err provider (build_provider components cfg)) λ p.
          and_then (add_each cap_settings m.caps.enable Toolbox.new) λ toolbox.
            and_then (build_optional (context_id values m)) λ c. ok (record {
              name = m.meta.name;
              instruction = m.persona.instruction;
              scope = record { origin = origin m };
              governor = grant Scoped.new (origin m) (granted_prefixes m);
              provider = p;
              toolbox = toolbox;
              context_assembler = c;
            })

    unfoldable pub assemble : AgentManifest T → Result AssembleError (AssembledAgent W C)
    unfolding assemble_from persona_settings plain_cap_settings
    assemble m = assemble_from m (persona_settings values m) (plain_cap_settings values m)

    unfoldable pub assemble_with_config :
        AgentManifest T → Option (Config T) → Result AssembleError (AssembledAgent W C)
    unfolding assemble_from merge_provider_settings merge_cap_settings
    assemble_with_config m global =
        assemble_from m (merge_provider_settings values global m)
          (merge_cap_settings values global m)

    unfoldable pub assemble_toml :
        (String → Result String (AgentManifest T))
        → String
        → Result AssembleError (AssembledAgent W C)
    unfolding from_toml assemble
    assemble_toml from_str content =
        and_then (map_err manifest (from_toml from_str content)) λ m. assemble m

-- The pipeline of an assembled agent: its toolbox's registry and executor, and its governor.
unfoldable pub pipeline_of : {W C : Type 0} → AssembledAgent W C → List (EffectHook W) → Pipeline W
unfolding registry executor scoped
pipeline_of agent hooks = record {
  registry = registry agent.toolbox;
  governor = scoped agent.governor;
  executor = executor agent.toolbox;
  hooks = hooks;
}
