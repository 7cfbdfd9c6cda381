-- ===== src/Llm/Compactor/Laws.antt =====
-- How large a compacted context is, and what it keeps.
use Prim.Native.String.{len}
use mathlib.Core.List.{reverse}
use pan.Prelude.{
  ℕ, ◌+◌, ◌/◌, ◌≤◌, ◌<◌, ◌≡◌, refl, ◌⊎◌, inl, inr, not, List, [], ◌∷◌, ◌++◌, leb, retain, arith,
  Bool-cases, leb→le, leb→gt,
}
use pan.Schema.{Context, Fragment, ContextBudget, body_bytes, estimate_tokens}
use pan.Llm.Compactor.{is_essential, essentials, add_again, compact}

body_bytes-append_end :
    (fs : List Fragment) (f : Fragment) → body_bytes (fs ++ f ∷ []) ≡ body_bytes fs + len f.body
body_bytes-append_end [] f = omega arith
body_bytes-append_end (g ∷ gs) f = omega (arith, body_bytes-append_end gs f)

add_again-fits :
    (max : ℕ) (fs : List Fragment) (c : Context)
    → estimate_tokens c ≤ max + 1
    → estimate_tokens (add_again max fs c) ≤ max + 1
unfolding add_again estimate_tokens
add_again-fits max [] c h = h
add_again-fits max (f ∷ fs) c h =
    let more = body_bytes-append_end c.fragments f in add_again-fits max fs _ (ground (arith))

add_again-full :
    (max : ℕ) (fs : List Fragment) (c : Context) → max < estimate_tokens c → add_again max fs c ≡ c
unfolding add_again estimate_tokens
add_again-full max [] c h = refl
add_again-full max (f ∷ fs) c h = elim (Bool-cases (leb (estimate_tokens c + len f.body / 4) max)) [
  | inl e ↦ let le = leb→le _ _ e in absurd (omega arith)
  | inr e ↦ rw (e, add_again, estimate_tokens) (add_again-full max fs c h)
]

-- A compacted context is over its budget by at most one token, or it is the essential fragments alone.
pub compact-fits :
    (ctx : Context) (budget : ContextBudget)
    → (estimate_tokens (compact ctx budget) ≤ budget.max_tokens + 1)
      ⊎ (compact ctx budget ≡ essentials ctx)
unfolding compact estimate_tokens
compact-fits ctx budget = elim (Bool-cases (leb (estimate_tokens ctx) budget.max_tokens)) [
  | inl e ↦
      rw (e, compact)
        (inl (let le = leb→le (estimate_tokens ctx) budget.max_tokens e in omega arith))
  | inr e ↦
      let tail = reverse (retain (λ f. not (is_essential f)) ctx.fragments) in
      rw (e, compact)
        (elim (Bool-cases (leb (estimate_tokens (essentials ctx)) budget.max_tokens)) [
          | inl f ↦
              let le = leb→le (estimate_tokens (essentials ctx)) budget.max_tokens f in
              inl (add_again-fits budget.max_tokens tail (essentials ctx) (omega arith))
          | inr f ↦ inr (add_again-full budget.max_tokens tail (essentials ctx) (leb→gt _ _ f))
        ])
]
