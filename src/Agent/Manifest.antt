-- ===== src/Agent/Manifest.antt =====
-- pan-agent/src/manifest.rs: `Agent.toml`. The values of the toml crate are the parameter `T`.
pub mod Laws
use pan.Prelude.{
  Bool, String, List, [], ◌∷◌, Option, Result, ok, err, and_then, map_err, unwrap_or, if◌then◌else◌,
  is_blank, ◌⧺◌,
}
use pan.Table.{Table}

pub record Meta : Type 0 where
  pub name : String
  pub persona : Option String

pub record Persona (T : Type 0) : Type 0 where
  pub instruction : String
  pub provider : String
  pub model : Option String
  pub settings : Table T

pub record Caps (T : Type 0) : Type 0 where
  pub grant : Table Bool
  pub enable : List String
  pub settings : Table T

pub record AgentManifest (T : Type 0) : Type 0 where
  pub meta : Meta
  pub persona : Persona T
  pub caps : Caps T

pub data ManifestError : Type 0 where
  io parse invalid : String → ManifestError

-- `impl Display for ManifestError`
unfoldable pub manifest_error_text : ManifestError → String
manifest_error_text (io e) = "reading Agent.toml: " ⧺ e
manifest_error_text (parse e) = "parsing Agent.toml: " ⧺ e
manifest_error_text (invalid e) = "invalid Agent.toml: " ⧺ e

unfoldable pub prefixes_of : Table Bool → List String
prefixes_of [] = []
prefixes_of ((family, on) ∷ rest) =
    let others = prefixes_of rest in if on then ("cap." ⧺ family) ∷ others else others

module _ {T : Type 0} where
  unfoldable pub persona_label : AgentManifest T → String
  persona_label m = unwrap_or m.meta.persona m.meta.name

  unfoldable pub origin : AgentManifest T → String
  unfolding persona_label
  origin m = "persona." ⧺ persona_label m

  unfoldable pub granted_prefixes : AgentManifest T → List String
  unfolding prefixes_of
  granted_prefixes m = prefixes_of m.caps.grant

  unfoldable pub validate : AgentManifest T → Result ManifestError (Unit {0})
  unfolding is_blank
  validate m =
      if is_blank m.meta.name
      then err (invalid "meta.name must not be empty")
      else if is_blank m.persona.provider
      then err (invalid "persona.provider must name a component")
      else ok tt

  -- `from_str` is that of the toml crate, with the error printed.
  unfoldable pub from_toml :
      (String → Result String (AgentManifest T)) → String → Result ManifestError (AgentManifest T)
  unfolding validate
  from_toml from_str content =
      and_then (map_err parse (from_str content)) λ m. and_then (validate m) λ _. ok m

  -- `read_to_string` is that of the standard library, with the error printed.
  unfoldable pub load :
      (String → Result String (AgentManifest T))
      → (String → Result String String)
      → String
      → Result ManifestError (AgentManifest T)
  unfolding from_toml
  load from_str read_to_string path =
      and_then (map_err io (read_to_string path)) λ content. from_toml from_str content
