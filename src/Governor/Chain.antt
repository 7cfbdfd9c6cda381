-- ===== src/Governor/Chain.antt =====
-- pan-core/src/pipeline.rs: `PolicyChain`, governors asked in order until one does not allow.
pub mod Laws
use pan.Prelude.{String, List, [], ◌∷◌, ◌++◌}
use pan.Json.{Value}
use pan.Schema.{Scope}
use pan.Governor.Defs.{Verdict, allow, Governor, if_allowed}

pub record PolicyChain (W : Type 0) : Type 0 where
  pub governors : List (Governor W)

module _ {W : Type 0} where
  unfoldable pub new : PolicyChain W
  new = record { governors = [] }

  unfoldable pub push : PolicyChain W → Governor W → PolicyChain W
  push c g = record { governors = c.governors ++ g ∷ [] }

  -- The loop: what follows runs in the world that the governors so far have left.
  unfoldable pub ask_all : List (Governor W) → Scope → String → Value → W → Verdict × W
  ask_all [] scope capability args w = (allow, w)
  ask_all (g ∷ gs) scope capability args w =
      if_allowed (g.govern scope capability args w) (λ w'. ask_all gs scope capability args w')

  -- `impl Governor for PolicyChain`
  unfoldable pub chain : PolicyChain W → Governor W
  chain c = record { govern = ask_all c.governors }
