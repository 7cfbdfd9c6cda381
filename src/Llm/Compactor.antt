-- ===== src/Llm/Compactor.antt =====
-- pan-llm/src/compactor.rs: `TruncationCompactor`.
pub mod Laws
use Prim.Native.String.{len}
use mathlib.Core.List.{reverse}
use pan.Prelude.{
  ℕ, ◌+◌, ◌/◌, Bool, ◌||◌, not, List, [], ◌∷◌, ◌++◌, leb, retain, str_eq, if◌then◌else◌,
}
use pan.Schema.{Context, Fragment, ContextBudget, estimate_tokens}

unfoldable pub is_essential : Fragment → Bool
is_essential f =
    str_eq f.channel "system" || str_eq f.channel "objective" || str_eq f.channel "persona"

unfoldable pub essentials : Context → Context
unfolding is_essential
essentials ctx = record { fragments = retain is_essential ctx.fragments }

-- The loop that adds fragments again while they fit.
unfoldable pub add_again : ℕ → List Fragment → Context → Context
unfolding estimate_tokens
add_again max [] c = c
add_again max (f ∷ fs) c = add_again max fs (
    if leb (estimate_tokens c + len f.body / 4) max
    then record { fragments = c.fragments ++ f ∷ [] }
    else c)

unfoldable pub compact : Context → ContextBudget → Context
unfolding essentials add_again is_essential estimate_tokens
compact ctx budget =
    if leb (estimate_tokens ctx) budget.max_tokens
    then ctx
    else add_again budget.max_tokens (reverse (retain (λ f. not (is_essential f)) ctx.fragments))
        (essentials ctx)
