-- ===== src/Providers.antt =====
-- pan-core/src/providers.rs: the rules engine and the behavior tree. A double is its bit pattern, and
-- its `>` is an argument. The model call of the other provider there is a stub and left out.
pub mod Laws
use pan.Prelude.{
  ℕ, Bool, true, false, ◌&&◌, String, List, [], ◌∷◌, Option, none, some, if◌then◌else◌, str_eq, map,
}
use pan.Json.{Value}
use pan.Schema.{
  Trigger, utterance, tick, event, signal, Goal, ActionIntent, invoke, conclude, achieved, continue,
  Decision,
}
use pan.Loop.{Provider}

-- `iter().find(p)`
abbrev pub find {ℓ} : {A : Type ℓ} → (A → Bool) → List A → Option A
find p [] = none
find p (x ∷ xs) = if p x then some x else find p xs

pub data Node : Type 0 where
  action : String → Value → Node
  succeed : Node

unfoldable pub tick_node : Node → ActionIntent
tick_node (action capability args) = invoke capability args none
tick_node succeed = conclude achieved

-- `impl Provider for BehaviorTreeProvider`
unfoldable pub behavior_tree_provider : {W : Type 0} → List Node → Provider W
unfolding tick_node
behavior_tree_provider root = record {
  id = "provider.behaviortree";
  decide = λ goal ctx caps w. (record { intents = map tick_node root }, w);
  cancelled = λ goal ctx caps w. w;
}

pub record Rule : Type 0 where
  pub when_signal_over : Option (String × ℕ)
  pub when_event_topic : Option String
  pub then_invoke : String × Value

abbrev pub signal_fires : (ℕ → ℕ → Bool) → String → ℕ → Rule → Bool
signal_fires above name value r = elim r.when_signal_over [
  | none ↦ false
  | some p ↦ str_eq p.0 name && above value p.1
]

abbrev pub event_fires : String → Rule → Bool
event_fires topic r = elim r.when_event_topic [ none ↦ false | some t ↦ str_eq t topic ]

-- Whether a rule reacts to the trigger.
unfoldable pub fires : (ℕ → ℕ → Bool) → Trigger → Rule → Bool
fires above (signal name value) r = signal_fires above name value r
fires above (event topic payload) r = event_fires topic r
fires above (tick n) r = false
fires above (utterance from content) r = false

unfoldable pub match_rule : (ℕ → ℕ → Bool) → List Rule → Goal → Option Rule
match_rule above rules goal = elim goal.trigger [
  | signal name value ↦ find (signal_fires above name value) rules
  | event topic payload ↦ find (event_fires topic) rules
  | tick n ↦ none
  | utterance from content ↦ none
]

unfoldable pub decide_by_rules : (ℕ → ℕ → Bool) → List Rule → Goal → Decision
unfolding match_rule
decide_by_rules above rules goal = elim (match_rule above rules goal) [
  | some r ↦ record {
    intents = invoke r.then_invoke.0 r.then_invoke.1 none ∷ conclude achieved ∷ [];
  }
  | none ↦ record { intents = conclude continue ∷ [] }
]

-- `impl Provider for RulesProvider`
unfoldable pub rules_provider : {W : Type 0} → (ℕ → ℕ → Bool) → List Rule → Provider W
unfolding decide_by_rules
rules_provider above rules = record {
  id = "provider.rules";
  decide = λ goal ctx caps w. (decide_by_rules above rules goal, w);
  cancelled = λ goal ctx caps w. w;
}
