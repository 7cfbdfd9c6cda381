-- ===== src/Governor/Scoped.antt =====
-- pan-core/src/pipeline.rs: `ScopedGovernor`, grants of capability-id prefixes to origins.
pub mod Laws
use pan.Prelude.{
  ◌≡◌, refl, Bool, true, false, ◌||◌, String, List, [], none, some, any, if◌then◌else◌, str_eq,
  strip_prefix, starts_with_char, ◌⧺◌,
}
use pan.Schema.{Scope}
use pan.Table.{Table, lookup, insert}
use pan.Governor.Defs.{Verdict, allow, deny, Governor}

-- `ScopedGovernor::prefix_matches`, and the same text in `PathGovernor`
unfoldable pub prefix_matches : String → String → Bool
prefix_matches prefix capability =
    str_eq capability prefix || elim (strip_prefix prefix capability) [
      | none ↦ false
      | some rest ↦ starts_with_char rest "."
    ]

pub record ScopedGovernor : Type 0 where
  pub grants : Table (List String)

unfoldable pub new : ScopedGovernor
new = record { grants = [] }

-- A second grant for an origin replaces the first.
unfoldable pub grant : ScopedGovernor → String → List String → ScopedGovernor
grant g origin prefixes = record { grants = insert origin prefixes g.grants }

unfoldable pub judge : ScopedGovernor → Scope → String → Verdict
judge g scope capability = elim (lookup scope.origin g.grants) [
  | some prefixes ↦
      if any (λ p. prefix_matches p capability) prefixes
      then allow
      else deny ("origin `" ⧺ scope.origin ⧺ "` is not granted capability `" ⧺ capability ⧺ "`")
  | none ↦ deny ("origin `" ⧺ scope.origin ⧺ "` has no capability grants")
]

-- `impl Governor for ScopedGovernor`: the verdict does not depend on the arguments or the world.
unfoldable pub scoped : {W : Type 0} → ScopedGovernor → Governor W
scoped g = record { govern = λ scope capability args w. (judge g scope capability, w) }

dotted : prefix_matches "cap.fs" "cap.fs.read" ≡ true
unfolding prefix_matches strip_prefix
dotted = refl

not_dotted : prefix_matches "cap.fs" "cap.fsx" ≡ false
unfolding prefix_matches strip_prefix
not_dotted = refl
