-- ===== src/Examples/Agent.antt =====
-- Configured agents: their settings, their authority, and what they remember.
use pan.Prelude.{
  ℕ, ◌+◌, ◌*◌, ◌≡◌, refl, ◌↔◌, true, false, String, [], ◌∷◌, Option, none, some, ok, All, unwrap_or,
  ◌⧺◌,
}
use pan.Json.{Value, text, object, field, end, get, as_str, null}
use pan.Schema.{Goal}
use pan.Table
use pan.Table.{lookup, insert}
use pan.Registry
use pan.Pipeline.Check.{minimal_schema_check, check_type, has_type, check_required}
use pan.Pipeline.{finish}
use pan.Governor.{allow}
use pan.Governor.Scoped.{judge, grant, prefix_matches}
use pan.Governor.Scoped as Scoped
use pan.Toolbox
use pan.Toolbox.{CapabilityProvider, first_taken, own, registry, register_providers, register_all}
use pan.Components.{ComponentRegistry, build, build_provider, build_capability_provider}
use pan.Loop.{Printing, Loop, RunReport, Machine, empty_report}
use pan.Loop.Enact.{enact}
use pan.Loop.Sources.{once}
use pan.Loop.Span.{run_span}
use pan.Config.{Config}
use pan.Agent.Manifest.{AgentManifest, origin, granted_prefixes, prefixes_of, persona_label, load}
use pan.Agent.Merge.{TomlValues, merge_provider_settings, toml_value_to_json}
use pan.Agent.Merge.Laws.{
  or_else, map_some, plugin_table, named_setting, get-merge_provider_settings,
}
use pan.Agent.Assemble.{
  AssembledAgent, assemble, assemble_with_config, assemble_from, add_each, build_optional,
  context_id,
}
use pan.Agent.Assemble.Authority.{Grants, assembled_allows_iff, run_span-granted}
use pan.Pipeline.Log.{effects}
use pan.Agent.Delegate.{Surroundings, delegate, child_scope, child_loop, no_context, fresh}
use pan.Agent.Delegate.Laws.{IsConfined, delegate-IsConfined}
use pan.Agent.Session.{SessionTurn, Lines, turns, new, with_max_turns}
use pan.Agent.Session.Laws.{appending, all_written, turns-reopened}
use pan.Agent.History.Laws.{committing, said, history-committing}
use pan.Agent.Session.Laws.{last_of}
use pan.Examples.Data.{echo, echo_loop, goal}

-- The values of the toml crate are taken to be those of json.
abbrev pub values : TomlValues Value
values = record {
  to_value = λ v. ok v;
  string = λ s. text s;
  as_str = as_str;
  as_table = λ v. none;
}

abbrev pub helper : AgentManifest Value
helper = record {
  meta = record { name = "helper"; persona = none };
  persona = record {
    instruction = "be brief";
    provider = "provider.echo";
    model = some "small";
    settings = ("base", text "http://agent") ∷ [];
  };
  caps = record {
    grant = ("echo", true) ∷ ("fs", false) ∷ [];
    enable = "cap.echo" ∷ [];
    settings = [];
  };
}

abbrev pub echo_caps : CapabilityProvider ℕ
echo_caps = record {
  id = "cap.echo";
  capabilities = echo ∷ [];
  execute = λ c a w. (ok a, w + 1);
  execute_with_invoker = λ c a w. finish (ok a) (w + 1);
}

abbrev pub stock : ComponentRegistry ℕ (Unit {0})
stock = record {
  providers = ("provider.echo", λ cfg. ok echo_loop.provider) ∷ [];
  governors = [];
  executors = [];
  capability_providers = ("cap.echo", λ cfg. ok echo_caps) ∷ [];
  context_assemblers = [];
}

abbrev pub built : AssembledAgent ℕ (Unit {0})
built = record {
  name = "helper";
  instruction = "be brief";
  scope = record { origin = "persona.helper" };
  governor = record { grants = ("persona.helper", "cap.echo" ∷ []) ∷ [] };
  provider = echo_loop.provider;
  toolbox = record { providers = echo_caps ∷ []; owner = ("cap.echo", 0) ∷ [] };
  context_assembler = none;
}

assembled_allows_iff_example :
    (judge built.governor built.scope "cap.echo" ≡ allow)
    ↔ ((origin helper ≡ "persona.helper") × Grants helper "cap.echo")
unfolding assemble_with_config assemble_from build_provider build add_each build_capability_provider
    Toolbox.add Toolbox.new first_taken own build_optional context_id origin granted_prefixes
    prefixes_of persona_label grant Scoped.new lookup insert Table.contains
assembled_allows_iff_example =
    assembled_allows_iff stock values helper none built built.scope "cap.echo" refl

abbrev global : Config Value
global = record {
  pan = record { plugin_dirs = []; admin_port = 9090; log_level = "info" };
  plugin = ("provider.echo", ("api_key", text "k") ∷ ("base", text "http://global") ∷ []) ∷ [];
  imports = [];
}

get-merge_provider_settings_example :
    get (merge_provider_settings values (some global) helper) "base"
    ≡ map_some (toml_value_to_json values) (
        or_else
          (or_else (lookup "base" helper.persona.settings) (named_setting values helper "base"))
          (lookup "base" (plugin_table values (some global) "provider.echo")))
unfolding lookup
get-merge_provider_settings_example =
    get-merge_provider_settings values (some global) helper "base" (tt, tt) ((refl, tt), (tt, tt))

abbrev printing : Printing
printing = record { to_string = λ v. "{}"; debug = λ v. "Deny" }

abbrev built_loop : Loop ℕ
built_loop = child_loop printing built built.scope

-- What the agent's span over one goal ends with.
abbrev ending : RunReport × Option Goal × Machine ℕ
ending =
    unwrap_or (run_span 8 built_loop once no_context (some goal) (fresh 0))
      (empty_report, none, fresh 0)

run_span-granted_example :
    All (λ c. (origin helper ≡ "persona.helper") × Grants helper c) ending.0.effected
    × ((c : String)
        → ¬ ((origin helper ≡ "persona.helper") × Grants helper c)
        → effects c ending.2.events ≡ effects c (fresh {W = ℕ} 0).events)
unfolding assemble assemble_from build_provider build add_each build_capability_provider Toolbox.add
    Toolbox.new first_taken own build_optional context_id origin granted_prefixes prefixes_of
    persona_label grant Scoped.new lookup insert Table.contains child_loop run_span once enact
    Registry.lookup minimal_schema_check check_type has_type check_required judge prefix_matches
run_span-granted_example =
    run_span-granted stock values helper built [] built_loop once no_context 8 (some goal) ending.1
      (fresh 0) ending.2 ending.0 refl refl refl

abbrev delegated : AgentManifest Value
delegated = record helper {
  meta = record { name = "helper"; persona = some "boss.delegated.helper" };
}

abbrev office : Surroundings ℕ (Unit {0}) Value
office = record {
  components = stock;
  values = values;
  from_str = λ content. ok delegated;
  read_to_string = λ w path. ok "";
  join = λ dir name. dir ⧺ ("/" ⧺ name);
  nanos = λ w. "1";
  decimal = λ n. "4";
  debug_end = λ e. "Concluded";
  printing = printing;
}

abbrev errand : Value
errand = object (field "agent" (text "helper") (field "objective" (text "say hello") end))

abbrev answer : Value
answer = elim (delegate office "agents" "persona.boss" errand 0) [ some (ok v, w) ↦ v | _ ↦ null ]

delegate-IsConfined_example :
    (name : String) × (m : AgentManifest Value) × (some "helper" ≡ some name)
    × (load office.from_str (office.read_to_string 0) ("agents" ⧺ ("/" ⧺ (name ⧺ ".toml"))) ≡ ok m)
    × IsConfined office "agents" m (child_scope "persona.boss" name) answer
unfolding delegate Table.contains enact Registry.lookup minimal_schema_check check_type has_type
    check_required judge prefix_matches
delegate-IsConfined_example =
    delegate-IsConfined office "agents" "persona.boss" errand 0 1 answer refl

abbrev first_turn : SessionTurn
first_turn = record { ts = 1; goal_id = "g"; objective = "say hello"; expressed = []; results = [] }

abbrev json_lines : Lines
json_lines = record { to_line = λ t. some "{}"; from_line = λ l. some first_turn }

turns-reopened_example :
    turns (
      with_max_turns
        (new json_lines
          (appending json_lines
            (all_written (first_turn ∷ first_turn ∷ []))
            (with_max_turns (new json_lines none) 1, none)).1)
        1)
    ≡ turns
        (appending json_lines
          (all_written (first_turn ∷ first_turn ∷ []))
          (with_max_turns (new json_lines none) 1, none)).0
turns-reopened_example = turns-reopened json_lines none [] (first_turn ∷ first_turn ∷ []) 1 refl (
  ("{}", refl, refl, ((refl, refl), ((refl, refl), tt))),
  (("{}", refl, refl, ((refl, refl), ((refl, refl), tt))), tt),
)

history-committing_example :
    (committing
      ((goal, ending.0) ∷ (goal, ending.0) ∷ [])
      (record { max_turns = 1; history = [] })).history
    ≡ last_of (1 * 2) (said ((goal, ending.0) ∷ (goal, ending.0) ∷ []))
history-committing_example = history-committing ((goal, ending.0) ∷ (goal, ending.0) ∷ []) 1
