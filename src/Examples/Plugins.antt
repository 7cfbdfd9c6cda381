-- ===== src/Examples/Plugins.antt =====
-- The lifecycle of plugins and the toolbox.
use pan.Prelude.{ℕ, List, false, ◌+◌, ◌≡◌, refl, ◌↔◌, String, [], ◌∷◌, ok, err}
use pan.Pipeline.{finish}
use pan.Toolbox.{CapabilityProvider, Toolbox}
use pan.Plugind.{new_set, reload_in_progress, discovery_io, Discover, PluginManager, reload}
use pan.Plugind.Laws.{reload-Stuck}
use pan.Governor.{Governor}
use pan.Components.{Factory, ComponentRegistry}
use pan.Examples.Data.{echo, counting, strict}
use pan.Lifecycle.{Plugin, Lifecycle, start}
use pan.Lifecycle.Laws.{Started, start_iff}

-- Provision adds one to the world, and cleanup ten.
abbrev plugin : String → Plugin ℕ
plugin name = record {
  id = name;
  provision = λ w. (ok tt, w + 1);
  validate = λ w. ok tt;
  run = λ w. (ok tt, w);
  cleanup = λ w. w + 10;
}

abbrev pair : Lifecycle ℕ
pair = record { plugins = plugin "a" ∷ plugin "b" ∷ [] }

start_iff_example : (start pair 0 ≡ (ok tt, 2)) ↔ Started pair 0 2
start_iff_example = start_iff pair 0 2

abbrev echo_provider : CapabilityProvider ℕ
echo_provider = record {
  id = "echo";
  capabilities = echo ∷ [];
  execute = λ c a w. (ok a, w);
  execute_with_invoker = λ c a w. finish (ok a) w;
}

abbrev no_tools : Toolbox ℕ
no_tools = record { providers = []; owner = [] }

-- A directory that cannot be read, and one that has become readable.
abbrev unreadable : Discover ℕ
unreadable = λ dirs w. (err (discovery_io "plugins" "permission denied"), w)

abbrev readable : Discover ℕ
readable = λ dirs w. (ok (plugin "a" ∷ [], []), w)

abbrev manager : PluginManager ℕ
manager = record {
  set = new_set [] [];
  lifecycle = pair;
  plugin_dirs = "plugins" ∷ [];
  reloading = false;
}

reload-Stuck_example :
    reload readable (reload unreadable manager 0).1 7
    ≡ (err reload_in_progress, (reload unreadable manager 0).1, 7)
unfolding reload
reload-Stuck_example =
    reload-Stuck unreadable readable manager 0 7 (discovery_io "plugins" "permission denied") refl

-- Two governors under one id.
abbrev registered_twice : List (String × Factory (Governor ℕ))
registered_twice = ("gov.x", λ cfg. ok counting) ∷ ("gov.x", λ cfg. ok strict) ∷ []

abbrev no_components : ComponentRegistry ℕ (Unit {0})
no_components = record {
  providers = [];
  governors = [];
  executors = [];
  capability_providers = [];
  context_assemblers = [];
}
