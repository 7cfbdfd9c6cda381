-- ===== src/Llm/Decide/Laws.antt =====
-- What the budget of tokens holds back.
use native.Mathlib.Nat.{mul-le-mul_right}
use pan.Prelude.{
  ℕ, suc, ◌+◌, ◌*◌, ◌^◌, ◌≤◌, ◌<◌, ◌≡◌, refl, ap, ◌∙◌, String, List, [], ◌∷◌, ◌++◌, Option, some,
  none, Result, ok, err, arith, leb, le→leb, leb→gt, Bool-cases, inl, inr, length,
}
use pan.Json.{Value}
use pan.Schema.{Capability, Goal, Context}
use pan.Table.{Table}
use pan.Llm.Http.{Client}
use pan.Llm.OpenAi.{Printing, given_up}
use pan.Llm.Anthropic.{AnthropicProvider}
use pan.Llm.Decide.{
  OpenAiProvider, over_budget, total_tokens, answers, asks, begin_openai, begin_anthropic,
  finish_openai, send_openai, decide_openai, decide_anthropic,
}

-- A goal, a context and the capabilities: what a provider is asked.
pub record Question : Type 0 where
  pub goal : Goal
  pub context : Context
  pub capabilities : List Capability

-- A provider that several calls share: itself, and the request and the names of each call that waits.
pub record Shared : Type 0 where
  pub provider : OpenAiProvider
  pub waiting : List (Value × Table String)

length-without :
    {A : Type 0} (xs : List A) (y : A) (ys : List A)
    → length (xs ++ y ∷ ys) ≡ suc (length (xs ++ ys))
length-without [] y ys = refl
length-without (x ∷ xs) y ys = ap suc (length-without xs y ys)

-- One call more.
times-suc : (n k t : ℕ) → n < k → suc n * t ≤ k * t
times-suc n k t h = mul-le-mul_right t h

module _ {W : Type 0} (io : Printing) (client : Client W) where
  -- Where the budget is used up, neither provider makes a request: the decision is to give up, and
  -- the provider and the world are as they were.
  pub decide-over_budget :
      (p : OpenAiProvider) (a : AnthropicProvider) (q : Question) (w : W) (b c : ℕ)
      → p.token_budget ≡ some b
      → b ≤ p.tokens_used
      → a.token_budget ≡ some c
      → c ≤ a.tokens_used
      → (decide_openai io client p q.goal q.context q.capabilities w ≡ (some given_up, p, w))
        × (decide_anthropic io client a q.goal q.context q.capabilities w ≡ (some given_up, a, w))
  unfolding decide_openai decide_anthropic begin_openai begin_anthropic over_budget
  decide-over_budget p a q w b c e h e' h' =
      let over = ap (λ o. over_budget o p.tokens_used) e ∙ le→leb b p.tokens_used h in
      let over' = ap (λ o. over_budget o a.tokens_used) e' ∙ le→leb c a.tokens_used h' in
      (
        rw (decide_openai, begin_openai, over) refl,
        rw (decide_anthropic, begin_anthropic, over') refl,
      )

  -- What calls of one provider come to that run beside each other, no more than `k` of them waiting at a
  -- time: any call tests the budget and begins to wait, and any that waits goes on with the reply to its
  -- request, which was sent in some world, or is dropped.
  pub data Reached (k : ℕ) (start : OpenAiProvider) : Shared → Type 0 where
    starts : Reached k start (record { provider = start; waiting = [] })
    begins :
        {s : Shared} (q : Question) (body : Value) (names : Table String)
        → length s.waiting < k
        → begin_openai io s.provider q.goal q.context q.capabilities ≡ asks body names
        → Reached k start s
        → Reached k start (record s { waiting = (body, names) ∷ s.waiting })
    finishes :
        {s : Shared} (before : List (Value × Table String)) (body : Value) (names : Table String)
        (behind : List (Value × Table String)) (w : W)
        → s.waiting ≡ before ++ (body, names) ∷ behind
        → Reached k start s
        → Reached k start (record {
          provider =
              (finish_openai io s.provider names (send_openai io client s.provider body w).0).1;
          waiting = before ++ behind;
        })
    drops :
        {s : Shared} (before : List (Value × Table String)) (call : Value × Table String)
        (behind : List (Value × Table String))
        → s.waiting ≡ before ++ call ∷ behind
        → Reached k start s
        → Reached k start (record s { waiting = before ++ behind })

  module _ (b t k : ℕ) (small : b + k * t ≤ 2 ^ 64)
      (replies : (p : OpenAiProvider) (body v : Value) (w : W)
        → (send_openai io client p body w).0 ≡ some (ok v)
        → total_tokens v ≤ t) where
    -- The budget is kept, and what is used, with what the waiting calls may add, is within it and
    -- `k` replies.
    abbrev pub IsWithin : Shared → Type 0
    IsWithin s =
        (s.provider.token_budget ≡ some b)
        × (s.provider.tokens_used + length s.waiting * t < b + k * t)

    begin_openai-below :
        (p : OpenAiProvider) (q : Question) (body : Value) (names : Table String)
        → p.token_budget ≡ some b
        → begin_openai io p q.goal q.context q.capabilities ≡ asks body names
        → p.tokens_used < b
    unfolding begin_openai over_budget
    begin_openai-below p q body names e h =
        let budget = ap (λ o. over_budget o p.tokens_used) e in
        elim (Bool-cases (leb b p.tokens_used)) [
          | inr left ↦ leb→gt _ _ left
          | inl used ↦
              let stuck : answers (some given_up) ≡ asks body names =
                rw (begin_openai, budget ∙ used) at h in
              absurd (cc)
        ]

    finish_openai-IsWithin :
        (p : OpenAiProvider) (names : Table String) (r : Option (Result String Value)) (n : ℕ)
        → ((v : Value) → r ≡ some (ok v) → total_tokens v ≤ t)
        → p.token_budget ≡ some b
        → p.tokens_used + suc n * t < b + k * t
        → ((finish_openai io p names r).1.token_budget ≡ some b)
          × ((finish_openai io p names r).1.tokens_used + n * t < b + k * t)
    unfolding finish_openai
    finish_openai-IsWithin p names none n few e h = (e, omega arith)
    finish_openai-IsWithin p names (some (err x)) n few e h = (e, omega arith)
    finish_openai-IsWithin p names (some (ok v)) n few e h =
        let reported = few v refl in (e, omega arith)

    -- Where calls of one provider with a budget run beside each other, at most `k` of them waiting for
    -- their replies at a time, and a reply reports at most `t` tokens, the tokens used stay below the
    -- budget and `k` replies more, those that the waiting calls may still add included, if they are so
    -- at the start, when no call waits, and the sum is within 2^64.
    pub Reached-IsWithin :
        (start : OpenAiProvider) (s : Shared)
        → start.token_budget ≡ some b
        → start.tokens_used < b + k * t
        → Reached k start s
        → IsWithin s
    Reached-IsWithin start s e h starts = (e, omega arith)
    Reached-IsWithin start s e h (begins {s = u} q body names few asked r) =
        let (budget, below) = Reached-IsWithin start u e h r in
        let used = begin_openai-below u.provider q body names budget asked in
        (budget, omega (arith, times-suc (length u.waiting) k t few))
    Reached-IsWithin start s e h (finishes {s = u} before body names behind w q r) =
        let (budget, below) = Reached-IsWithin start u e h r in
        let fewer = ap length q ∙ length-without before (body, names) behind in
        finish_openai-IsWithin u.provider names (send_openai io client u.provider body w).0
          (length (before ++ behind)) (λ v. replies u.provider body v w) budget (rw fewer at below)
    Reached-IsWithin start s e h (drops {s = u} before call behind q r) =
        let (budget, below) = Reached-IsWithin start u e h r in
        let fewer = ap length q ∙ length-without before call behind in
        let left : u.provider.tokens_used + suc (length (before ++ behind)) * t < b + k * t =
          rw fewer at below in
        (budget, omega arith)
