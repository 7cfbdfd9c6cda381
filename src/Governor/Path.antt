-- ===== src/Governor/Path.antt =====
-- pan-core/src/pipeline.rs: `PathGovernor`, rules on the `path` argument in front of a governor.
pub mod Laws
use pan.Prelude.{
  Bool, true, false, ◌&&◌, bind, String, List, [], ◌∷◌, ◌++◌, Option, none, some, if◌then◌else◌,
  ◌⧺◌,
}
use pan.Json
use pan.Json.{Value}
use pan.Schema.{Scope}
use pan.Governor.Defs.{Verdict, deny, Governor}
use pan.Governor.Scoped.{prefix_matches}
use pan.Governor.Glob.{glob_match_simple}

pub record PathRule : Type 0 where
  pub capability_prefix : String
  pub path_glob : String
  pub allowed : Bool

pub record PathGovernor (W : Type 0) : Type 0 where
  pub inner : Governor W
  pub rules : List PathRule

module _ {W : Type 0} where
  unfoldable pub new : Governor W → PathGovernor W
  new inner = record { inner = inner; rules = [] }

  push_rule : PathGovernor W → String → String → Bool → PathGovernor W
  push_rule g prefix glob allowed = record g { rules = g.rules ++ rule ∷ [] }
    where
      rule : PathRule
      rule = record { capability_prefix = prefix; path_glob = glob; allowed = allowed }

  unfoldable pub allow_path : PathGovernor W → String → String → PathGovernor W
  unfolding push_rule
  allow_path g prefix glob = push_rule g prefix glob true

  unfoldable pub deny_path : PathGovernor W → String → String → PathGovernor W
  unfolding push_rule
  deny_path g prefix glob = push_rule g prefix glob false

unfoldable pub denial : String → String → PathRule → Verdict
denial capability p rule =
    deny ("path `" ⧺ p ⧺ "` denied by rule `" ⧺ rule.path_glob ⧺ "` for `" ⧺ capability ⧺ "`")

-- The test of one rule: the capability has the prefix and the path fits the glob.
abbrev pub applies : String → String → PathRule → Bool
applies capability p rule =
    prefix_matches rule.capability_prefix capability && glob_match_simple rule.path_glob p

-- The loop over the rules: the first rule that matches decides, and `break`s if it allows.
unfoldable pub check_rules : String → String → List PathRule → Option Verdict
check_rules capability p [] = none
check_rules capability p (rule ∷ rules) =
    let rest = check_rules capability p rules in
    if applies capability p rule
    then (if rule.allowed then none else some (denial capability p rule))
    else rest

abbrev pub path_arg : Value → Option String
path_arg args = bind (Json.get args "path") Json.as_str

-- `impl Governor for PathGovernor`: the inner governor is asked only where no rule denies.
unfoldable pub path_governor : {W : Type 0} → PathGovernor W → Governor W
path_governor g = record {
  govern = λ scope capability args w.
      elim (bind (path_arg args) λ p. check_rules capability p g.rules) [
        | some v ↦ (v, w)
        | none ↦ g.inner.govern scope capability args w
      ];
}
