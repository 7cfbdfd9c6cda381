-- ===== src/Config/Expand.antt =====
-- pan-core/src/config.rs: `expand_env_vars`. The environment is an argument, and so is
-- `is_alphanumeric`, which the standard library reads from Unicode's tables.
pub mod Laws
use Prim.Native.Char.{Char}
use pan.Prelude.{true, false, Bool, ◌||◌, String, Option, unwrap_or, if◌then◌else◌, same_char, ◌⧺◌}

pub record Environment : Type 0 where
  pub var : String → Option String
  pub is_alphanumeric : Char → Bool

-- Where the loop over the characters stands: between names, behind a dollar sign, and in a name, with
-- what has been read of it.
pub data Mode : Type 0 where
  plain dollar : Mode
  braced bare : String → Mode

unfoldable pub with_char : String → Char → String
with_char name c = name ⧺ String.◌∷◌ c ""

module _ (env : Environment) where
  -- `std::env::var(&var).unwrap_or_default()`
  unfoldable pub value_of : String → String
  value_of name = unwrap_or (env.var name) ""

  unfoldable pub name_char : Char → Bool
  name_char c = env.is_alphanumeric c || same_char c "_"

  -- What the loop pushes for the characters that are left.
  unfoldable pub expand : String → Mode → String
  unfolding value_of name_char with_char
  expand String.[] plain = ""
  expand String.[] dollar = value_of ""
  expand String.[] (braced name) = value_of name
  expand String.[] (bare name) = value_of name
  expand (String.◌∷◌ c s) plain = elim (same_char c "$") [
    | true ↦ expand s dollar
    | false ↦ String.◌∷◌ c (expand s plain)
  ]
  expand (String.◌∷◌ c s) dollar = elim (same_char c "{") [
    | true ↦ expand s (braced "")
    | false ↦ elim (name_char c) [
      | true ↦ expand s (bare (with_char "" c))
      | false ↦ String.◌∷◌ c (value_of "" ⧺ expand s plain)
    ]
  ]
  expand (String.◌∷◌ c s) (braced name) = elim (same_char c "}") [
    | true ↦ value_of name ⧺ expand s plain
    | false ↦ expand s (braced (with_char name c))
  ]
  expand (String.◌∷◌ c s) (bare name) = elim (name_char c) [
    | true ↦ expand s (bare (with_char name c))
    | false ↦ String.◌∷◌ c (value_of name ⧺ expand s plain)
  ]

  unfoldable pub expand_env_vars : String → String
  unfolding expand
  expand_env_vars s = expand s plain
