-- ===== src/Config.antt =====
-- pan-core/src/config.rs: the configuration, its environment variables, and its loading.
pub mod Expand
use pan.Prelude.{
  ℕ, ◌≡◌, refl, Bool, true, ◌||◌, String, List, [], ◌∷◌, Option, none, some, Result, ok, err,
  and_then, map_err, if◌then◌else◌, str_eq, strip_prefix,
}
use pan.Table.{Table}
use pan.Config.Expand.{Environment, expand_env_vars}

-- A path is its text.
pub record PanConfig : Type 0 where
  pub plugin_dirs : List String
  pub admin_port : ℕ
  pub log_level : String

-- The tables are the toml crate's, of its values `T`.
pub record Config (T : Type 0) : Type 0 where
  pub pan : PanConfig
  pub plugin : Table (Table T)
  pub imports : List String

-- The path comes before the detail.
pub data ConfigError : Type 0 where
  io parse : String → String → ConfigError

-- What the standard library and the toml crate provide, with their errors printed: the environment,
-- `read_to_string`, `toml::from_str`, `to_lowercase`, `split(':')` and `parse::<u16>`.
pub record Platform (T : Type 0) : Type 0 where
  pub vars : List (String × String)
  pub env : Environment
  pub read_to_string : String → Result String String
  pub from_str : String → Result String (Config T)
  pub to_lowercase : String → String
  pub split_colon : String → List String
  pub parse_port : String → Option ℕ

module _ {T : Type 0} (platform : Platform T) where
  unfoldable pub load_file : String → Result ConfigError (Config T)
  unfolding expand_env_vars
  load_file path =
      and_then (map_err (io path) (platform.read_to_string path))
        λ raw. map_err (parse path) (platform.from_str (expand_env_vars platform.env raw))

  -- One variable of the environment, with its `PAN_` prefix taken off.
  unfoldable pub override : String → String → PanConfig → PanConfig
  override rest val pan =
      let lower = platform.to_lowercase rest in
      let dirs =
        if str_eq lower "plugin_dirs" || str_eq lower "plugindirs"
        then record pan { plugin_dirs = platform.split_colon val }
        else pan in
      let port =
        if str_eq lower "admin_port" || str_eq lower "adminport"
        then (elim (platform.parse_port val) [
          | some n ↦ record dirs { admin_port = n }
          | none ↦ dirs
        ])
        else dirs in
      if str_eq lower "log_level" || str_eq lower "loglevel"
      then record port { log_level = val }
      else port

  unfoldable pub override_each : List (String × String) → PanConfig → PanConfig
  unfolding override strip_prefix
  override_each [] pan = pan
  override_each ((key, val) ∷ more) pan =
      override_each more
        (elim (strip_prefix "PAN_" key) [ some rest ↦ override rest val pan | none ↦ pan ])

  unfoldable pub load : String → Result ConfigError (Config T)
  unfolding load_file override_each
  load path =
      and_then (load_file path)
        λ config. ok (record config { pan = override_each platform.vars config.pan })
