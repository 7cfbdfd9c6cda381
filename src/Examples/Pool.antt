-- ===== src/Examples/Pool.antt =====
-- A pool of one agent.
use pan.Prelude.{
  ◌≡◌, refl, ◌↔◌, true, [], ◌∷◌, none, some, ok, Any, is_blank, str_eq, if◌then◌else◌,
}
use pan.Json.{Value}
use pan.Table.{lookup, insert}
use pan.Table
use pan.Toolbox
use pan.Toolbox.{first_taken, own}
use pan.Components.{build, build_provider, build_capability_provider}
use pan.Governor.Scoped.{grant}
use pan.Governor.Scoped as Scoped
use pan.Agent.Manifest.{
  load, from_toml, validate, origin, granted_prefixes, prefixes_of, persona_label,
}
use pan.Agent.Assemble.{assemble_with_config, assemble_from, add_each, build_optional, context_id}
use pan.Gateway.Pool.{
  Directory, get, load_with_config, add_entries, load_manifest, add_manifest, add_agent,
}
use pan.Gateway.Pool.Laws.{IsEntry, get-load_with_config}
use pan.Examples.Agent.{values, helper, stock, built}

-- Two entries, one of which is no manifest.
abbrev disk : Directory Value
disk = record {
  exists = λ dir. true;
  read_dir = λ dir. ok (ok "readme.md" ∷ ok "helper.toml" ∷ []);
  extension = λ path. if str_eq path "helper.toml" then some "toml" else some "md";
  read_to_string = λ path. ok "[meta]";
  from_str = λ s. ok helper;
}

get-load_with_config_example :
    (get (record { agents = ("helper", built) ∷ []; source_dir = some "agents" }) "helper"
      ≡ some built)
    ↔ Any (IsEntry stock values disk none "helper" built) (ok "readme.md" ∷ ok "helper.toml" ∷ [])
unfolding load_with_config add_entries load_manifest add_manifest add_agent load from_toml validate
    is_blank assemble_with_config assemble_from build_provider build add_each
    build_capability_provider Toolbox.add Toolbox.new first_taken own build_optional context_id
    origin granted_prefixes prefixes_of persona_label grant Scoped.new lookup insert Table.contains
get-load_with_config_example =
    get-load_with_config stock values disk none "agents" (ok "readme.md" ∷ ok "helper.toml" ∷ [])
      (record { agents = ("helper", built) ∷ []; source_dir = some "agents" }) "helper" built refl
      refl
