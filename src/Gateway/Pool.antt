-- ===== src/Gateway/Pool.antt =====
-- pan-gateway/src/pool.rs: the pool of agents of a directory. The file system and the toml crate are
-- arguments; what is printed for a skipped file is left out.
pub mod Laws
use pan.Prelude.{
  ℕ, Bool, true, false, String, List, [], ◌∷◌, Option, none, some, Result, ok, err, and_then,
  map_err, ok_or, bind, is_blank, length, str_eq, if◌then◌else◌, ◌⧺◌,
}
use pan.Table.{Table, lookup, insert, contains, keys}
use pan.Components.{ComponentRegistry}
use pan.Config.{Config}
use pan.Agent.Manifest.{AgentManifest, load, manifest_error_text}
use pan.Agent.Merge.{TomlValues}
use pan.Agent.Assemble.{AssembledAgent, assemble_with_config}

pub record AgentPool (W C : Type 0) : Type 0 where
  pub agents : Table (AssembledAgent W C)
  pub source_dir : Option String

-- `exists` and `read_dir` with the paths of its entries, each of which may fail, `extension`,
-- `read_to_string`, and `from_str` of the toml crate; errors are printed.
pub record Directory (T : Type 0) : Type 0 where
  pub exists : String → Bool
  pub read_dir : String → Result String (List (Result String String))
  pub extension : String → Option String
  pub read_to_string : String → Result String String
  pub from_str : String → Result String (AgentManifest T)

module _ {W C T : Type 0} (registry : ComponentRegistry W C) (values : TomlValues T)
    (disk : Directory T) (global : Option (Config T)) where
  abbrev pub is_toml : String → Bool
  is_toml path = elim (disk.extension path) [ some e ↦ str_eq e "toml" | none ↦ false ]

  unfoldable pub load_manifest : String → Result String (AgentManifest T)
  unfolding load manifest_error_text
  load_manifest path =
      map_err (λ e. path ⧺ (": " ⧺ manifest_error_text e))
        (load disk.from_str disk.read_to_string path)

  -- An agent is put into the pool, unless its name is taken.
  unfoldable pub add_agent :
      String
      → AssembledAgent W C
      → Table (AssembledAgent W C)
      → Result String (Table (AssembledAgent W C))
  unfolding contains insert
  add_agent name agent agents =
      if contains name agents
      then err ("duplicate agent name `" ⧺ (name ⧺ "` in pool"))
      else ok (insert name agent agents)

  -- What a round of the loop does for a manifest: one that cannot be assembled is skipped.
  unfoldable pub add_manifest :
      AgentManifest T → Table (AssembledAgent W C) → Result String (Table (AssembledAgent W C))
  unfolding is_blank assemble_with_config add_agent
  add_manifest m agents =
      if is_blank m.meta.name
      then ok agents
      else (elim (assemble_with_config registry values m global) [
        | ok agent ↦ add_agent m.meta.name agent agents
        | err e ↦ ok agents
      ])

  -- The loop over the entries.
  unfoldable pub add_entries :
      List (Result String String)
      → Table (AssembledAgent W C)
      → Result String (Table (AssembledAgent W C))
  unfolding load_manifest add_manifest
  add_entries [] agents = ok agents
  add_entries (err e ∷ es) agents = err ("entry: " ⧺ e)
  add_entries (ok path ∷ es) agents = elim (is_toml path) [
    | false ↦ add_entries es agents
    | true ↦ elim (load_manifest path) [
      | err e ↦ err e
      | ok m ↦ elim (add_manifest m agents) [ err e ↦ err e | ok agents' ↦ add_entries es agents' ]
    ]
  ]

  unfoldable pub load_with_config : String → Result String (AgentPool W C)
  unfolding add_entries
  load_with_config dir =
      if disk.exists dir
      then and_then (map_err (λ e. "read_dir: " ⧺ e) (disk.read_dir dir)) (λ entries.
        and_then (add_entries entries []) λ agents. elim agents [
          | [] ↦ err "no agents loaded (no valid Agent.toml files found)"
          | a ∷ rest ↦ ok (record { agents = a ∷ rest; source_dir = some dir })
        ])
      else err ("agents directory not found: " ⧺ dir)

module _ {W C : Type 0} where
  unfoldable pub get : AgentPool W C → String → Option (AssembledAgent W C)
  unfolding lookup
  get pool name = lookup name pool.agents

  unfoldable pub names : AgentPool W C → List String
  unfolding keys
  names pool = keys pool.agents

  abbrev pub len : AgentPool W C → ℕ
  len pool = length pool.agents

  unfoldable pub agent_dir : AgentPool W C → Result String String
  agent_dir pool = ok_or "agent pool has no source directory" pool.source_dir
