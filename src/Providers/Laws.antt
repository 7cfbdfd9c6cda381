-- ===== src/Providers/Laws.antt =====
-- Which rule the rules engine follows.
use pan.Prelude.{
  Option, some, ap, ℕ, ◌≡◌, refl, ◌⊎◌, inl, inr, Bool, true, false, List, [], ◌∷◌, ◌++◌, none, All,
  Bool-cases,
}
use pan.Schema.{
  Trigger, utterance, tick, event, signal, Goal, invoke, conclude, achieved, continue, Decision,
}
use pan.Providers.{find, Rule, fires, signal_fires, event_fires, match_rule, decide_by_rules}

-- The first rule of the list that reacts to the trigger, with those before it that do not.
pub record FirstToFire (above : ℕ → ℕ → Bool) (t : Trigger) (rules : List Rule) (r : Rule)
    : Type 0 where
  pub before : List Rule
  pub behind : List Rule
  pub split : rules ≡ before ++ r ∷ behind
  pub fires_now : fires above t r ≡ true
  pub none_before : All (λ q. fires above t q ≡ false) before

-- The first element of a list that passes, with those before it.
data Found {A : Type 0} (p : A → Bool) (xs : List A) : Option A → Type 0 where
  absent : All (λ q. p q ≡ false) xs → Found p xs none
  present :
      (before : List A) (x : A) (behind : List A)
      → xs ≡ before ++ x ∷ behind
      → p x ≡ true
      → All (λ q. p q ≡ false) before
      → Found p xs (some x)

Found-cons :
    {A : Type 0} (p : A → Bool) (x : A) (xs : List A) {o : Option A}
    → p x ≡ false
    → Found p xs o
    → Found p (x ∷ xs) o
Found-cons p x xs e (absent none_passes) = absent (e, none_passes)
Found-cons p x xs e (present before y behind split passes none_before) =
    present (x ∷ before) y behind (ap (λ ys. x ∷ ys) split) passes (e, none_before)

find-Found : {A : Type 0} (p : A → Bool) (xs : List A) → Found p xs (find p xs)
find-Found p [] = absent tt
find-Found p (x ∷ xs) = elim (Bool-cases (p x)) [
  | inl e ↦ rw (e, find) (present [] x xs refl e tt)
  | inr e ↦ rw (e, find) (Found-cons p x xs e (find-Found p xs))
]

-- The rule that the provider matches is the first to fire.
match_rule-Found :
    (above : ℕ → ℕ → Bool) (rules : List Rule) (goal : Goal)
    → Found (fires above goal.trigger) rules (match_rule above rules goal)
unfolding match_rule fires
match_rule-Found above rules goal = go goal.trigger
  where
    silent : (rs : List Rule) → All (λ (q : Rule). false ≡ false) rs
    silent [] = tt
    silent (r ∷ rs) = (refl, silent rs)

    go :
        (t : Trigger)
        → Found (fires above t) rules (match_rule above rules (record goal { trigger = t }))
    go (signal name value) = find-Found (signal_fires above name value) rules
    go (event topic payload) = find-Found (event_fires topic) rules
    go (tick n) = absent (silent rules)
    go (utterance from content) = absent (silent rules)

-- The decision is that of the first rule to react, or to continue where no rule reacts.
pub decide_by_rules-FirstToFire :
    (above : ℕ → ℕ → Bool) (rules : List Rule) (goal : Goal)
    → ((r : Rule) × FirstToFire above goal.trigger rules r
        × (decide_by_rules above rules goal ≡ record {
          intents = invoke r.then_invoke.0 r.then_invoke.1 none ∷ conclude achieved ∷ [];
        }))
      ⊎ (All (λ q. fires above goal.trigger q ≡ false) rules
          × (decide_by_rules above rules goal ≡ record { intents = conclude continue ∷ [] }))
unfolding decide_by_rules match_rule fires
decide_by_rules-FirstToFire above rules goal = go (match_rule-Found above rules goal)
  where
    decided : Option Rule → Decision
    decided (some r) = record {
      intents = invoke r.then_invoke.0 r.then_invoke.1 none ∷ conclude achieved ∷ [];
    }
    decided none = record { intents = conclude continue ∷ [] }

    go :
        {o : Option Rule}
        → Found (fires above goal.trigger) rules o
        → ((r : Rule) × FirstToFire above goal.trigger rules r
            × (decided o ≡ record {
              intents = invoke r.then_invoke.0 r.then_invoke.1 none ∷ conclude achieved ∷ [];
            }))
          ⊎ (All (λ q. fires above goal.trigger q ≡ false) rules
              × (decided o ≡ record { intents = conclude continue ∷ [] }))
    go (absent none_fires) = inr (none_fires, refl)
    go (present before r behind split fires_now none_before) = inl (
      r,
      record {
        before = before;
        behind = behind;
        split = split;
        fires_now = fires_now;
        none_before = none_before;
      },
      refl,
    )
