-- ===== src/Plugind.antt =====
-- pan-core/src/plugind.rs: the sets of running plugins and their manager. Reading the directories,
-- with the manifests and the modules in them, is an argument.
pub mod Laws
use pan.Prelude.{
  ℕ, suc, ◌+◌, Bool, true, false, String, List, [], ◌∷◌, Option, none, some, bind, is_some, Result,
  ok, err, map, length, get_elem?, map_err,
}
use pan.Table.{Table, lookup, insert}
use pan.Lifecycle
use pan.Lifecycle.{Lifecycle, LifecycleError, Plugin}

pub record PluginEntry : Type 0 where
  pub id : String

-- `PluginSet`: the entries, their positions, and the plugin of each capability.
pub record PluginSet : Type 0 where
  pub entries : List PluginEntry
  pub by_id : Table ℕ
  pub capability_index : Table String

-- The loop of `PluginSet::new`, from the position `i` on.
unfoldable pub index_from : ℕ → List PluginEntry → Table ℕ → Table ℕ
index_from i [] by_id = by_id
index_from i (p ∷ ps) by_id = index_from (suc i) ps (insert p.id i by_id)

unfoldable pub new_set : List PluginEntry → Table String → PluginSet
unfolding index_from
new_set entries capability_index = record {
  entries = entries;
  by_id = index_from 0 entries [];
  capability_index = capability_index;
}

-- `PluginSet::contains`
unfoldable pub contains : PluginSet → String → Bool
contains set id = is_some (lookup id set.by_id)

-- `PluginSet::lookup`
unfoldable pub lookup_entry : PluginSet → String → Option PluginEntry
lookup_entry set id = bind (lookup id set.by_id) λ i. get_elem? set.entries i

unfoldable pub provider_for : PluginSet → String → Option PluginEntry
unfolding lookup_entry
provider_for set capability = bind (lookup capability set.capability_index) (lookup_entry set)

unfoldable pub set_len : PluginSet → ℕ
set_len set = length set.entries

pub record PluginHealth : Type 0 where
  pub id : String
  pub alive : Bool
  pub error : Option String

unfoldable pub alive : String → PluginHealth
alive id = record { id = id; alive = true; error = none }

unfoldable pub degraded : String → String → PluginHealth
degraded id message = record { id = id; alive = false; error = some message }

pub data PlugindError : Type 0 where
  manifest_io manifest_parse manifest_validation : String → String → PlugindError
  discovery_io wasm_load : String → String → PlugindError
  lifecycle_failed : LifecycleError → PlugindError
  reload_in_progress : PlugindError

-- `discover_all`
abbrev pub Discover : Type 0 → Type 0
Discover W = List String → W → Result PlugindError (List (Plugin W) × Table String) × W

pub record PluginManager (W : Type 0) : Type 0 where
  pub set : PluginSet
  pub lifecycle : Lifecycle W
  pub plugin_dirs : List String
  pub reloading : Bool

module _ {W : Type 0} where
  -- The loop that registers what was discovered.
  unfoldable pub register_plugins : List (Plugin W) → Lifecycle W → Lifecycle W
  unfolding Lifecycle.register
  register_plugins [] lc = lc
  register_plugins (p ∷ ps) lc = register_plugins ps (Lifecycle.register lc p)

  -- The set of the plugins that were discovered.
  unfoldable pub set_of : List (Plugin W) → Table String → PluginSet
  unfolding new_set
  set_of plugins capability_index =
      new_set (map (λ p. record { id = p.id }) plugins) capability_index

  -- `PluginManager::new`
  unfoldable pub new_manager :
      Discover W → List String → W → Result PlugindError (PluginManager W) × W
  unfolding set_of register_plugins Lifecycle.new
  new_manager discover plugin_dirs w =
      let (r, w') = discover plugin_dirs w in
      (
        elim r [
          | err e ↦ err e
          | ok found ↦ ok (record {
            set = set_of found.0 found.1;
            lifecycle = register_plugins found.0 Lifecycle.new;
            plugin_dirs = plugin_dirs;
            reloading = false;
          })
        ],
        w',
      )

  unfoldable pub start_manager : PluginManager W → W → Result PlugindError (Unit {0}) × W
  unfolding Lifecycle.start
  start_manager m w =
      let (r, w') = Lifecycle.start m.lifecycle w in (map_err (λ e. lifecycle_failed e) r, w')

  unfoldable pub shutdown_manager : PluginManager W → W → W
  unfolding Lifecycle.cleanup
  shutdown_manager m w = Lifecycle.cleanup m.lifecycle w

  -- Phases 3 and 4 of `reload`: the swap and the start.
  unfoldable pub swap_and_resume :
      PluginManager W
      → List (Plugin W) × Table String
      → W
      → Result PlugindError (Unit {0}) × PluginManager W × W
  unfolding set_of register_plugins Lifecycle.new start_manager
  swap_and_resume m found w =
      let n : PluginManager W = record m {
        set = set_of found.0 found.1;
        lifecycle = register_plugins found.0 Lifecycle.new;
      } in
      let (r, w') = start_manager n w in
      elim r [ err e ↦ (err e, n, w') | ok _ ↦ (ok tt, record n { reloading = false }, w') ]

  unfoldable pub reload :
      Discover W → PluginManager W → W → Result PlugindError (Unit {0}) × PluginManager W × W
  unfolding Lifecycle.cleanup swap_and_resume
  reload discover m w =
      let draining : PluginManager W = record m { reloading = true } in
      let (r, w') = discover m.plugin_dirs (Lifecycle.cleanup m.lifecycle w) in
      elim m.reloading [
        | true ↦ (err reload_in_progress, draining, w)
        | false ↦ elim r [
          | err e ↦ (err e, draining, w')
          | ok found ↦ swap_and_resume draining found w'
        ]
      ]

  unfoldable pub health : PluginManager W → List PluginHealth
  unfolding alive
  health m = map (λ p. alive p.id) m.set.entries
