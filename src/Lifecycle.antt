-- ===== src/Lifecycle.antt =====
-- pan-core/src/registry.rs: the lifecycle of plugins. A plugin's methods read and write the world `W`.
pub mod Laws
use mathlib.Core.List.{reverse}
use pan.Prelude.{
  ℕ, Bool, true, false, String, List, [], ◌∷◌, ◌++◌, Option, none, some, any, if◌then◌else◌, str_eq,
  Result, ok, err, length,
}
use pan.Registry.{ConflictError}

pub record PluginError : Type 0 where
  pub plugin : String
  pub message : String

pub data LifecycleError : Type 0 where
  conflict : ConflictError → LifecycleError
  plugin_failed : PluginError → LifecycleError

-- `trait Plugin`; `validate` only reads.
pub record Plugin (W : Type 0) : Type 0 where
  pub id : String
  pub provision : W → Result PluginError (Unit {0}) × W
  pub validate : W → Result PluginError (Unit {0})
  pub run : W → Result PluginError (Unit {0}) × W
  pub cleanup : W → W

pub record Lifecycle (W : Type 0) : Type 0 where
  pub plugins : List (Plugin W)

module _ {W : Type 0} where
  unfoldable pub new : Lifecycle W
  new = record { plugins = [] }

  unfoldable pub register : Lifecycle W → Plugin W → Lifecycle W
  register lc plugin = record { plugins = lc.plugins ++ plugin ∷ [] }

  -- The first loop of `provision`: the id that was seen before, if there is one.
  unfoldable pub first_conflict : List String → List (Plugin W) → Option String
  first_conflict seen [] = none
  first_conflict seen (p ∷ ps) =
      let rest = first_conflict (p.id ∷ seen) ps in
      if any (λ id. str_eq id p.id) seen then some p.id else rest

  -- A loop over the plugins that stops at the first error.
  unfoldable pub each :
      (Plugin W → W → Result PluginError (Unit {0}) × W)
      → List (Plugin W)
      → W
      → Result LifecycleError (Unit {0}) × W
  each phase [] w = (ok tt, w)
  each phase (p ∷ ps) w =
      let (r, w') = phase p w in
      let rest = each phase ps w' in elim r [ ok _ ↦ rest | err e ↦ (err (plugin_failed e), w') ]

  unfoldable pub provision : Lifecycle W → W → Result LifecycleError (Unit {0}) × W
  unfolding first_conflict each
  provision lc w = elim (first_conflict [] lc.plugins) [
    | some id ↦ (err (conflict (record { id = id })), w)
    | none ↦ each (λ p. p.provision) lc.plugins w
  ]

  unfoldable pub validate : Lifecycle W → W → Result LifecycleError (Unit {0}) × W
  unfolding each
  validate lc w = each (λ p u. (p.validate u, u)) lc.plugins w

  unfoldable pub run : Lifecycle W → W → Result LifecycleError (Unit {0}) × W
  unfolding each
  run lc w = each (λ p. p.run) lc.plugins w

  unfoldable pub clean_all : List (Plugin W) → W → W
  clean_all [] w = w
  clean_all (p ∷ ps) w = clean_all ps (p.cleanup w)

  unfoldable pub cleanup : Lifecycle W → W → W
  unfolding clean_all
  cleanup lc w = clean_all (reverse lc.plugins) w

  -- The phases in order, up to the first error.
  unfoldable pub phases : Lifecycle W → W → Result LifecycleError (Unit {0}) × W
  unfolding provision validate run
  phases lc w =
      let (r, w1) = provision lc w in
      let (s, w2) = validate lc w1 in
      elim r [ err e ↦ (err e, w1) | ok _ ↦ elim s [ err e ↦ (err e, w2) | ok _ ↦ run lc w2 ] ]

  unfoldable pub start : Lifecycle W → W → Result LifecycleError (Unit {0}) × W
  unfolding phases cleanup
  start lc w =
      let (r, w') = phases lc w in elim r [ ok _ ↦ (ok tt, w') | err e ↦ (err e, cleanup lc w') ]

  unfoldable pub len : Lifecycle W → ℕ
  len lc = length lc.plugins

  unfoldable pub is_empty : Lifecycle W → Bool
  is_empty lc = elim lc.plugins [ [] ↦ true | _ ↦ false ]
