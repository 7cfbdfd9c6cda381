-- ===== src/Daemon/Session/Souls.antt =====
-- pan-daemon/src/session.rs: souls, their rules and their minds.
use pan.Prelude.{
  ℕ, Bool, true, false, String, List, [], ◌∷◌, Option, none, some, bind, unwrap_or, if◌then◌else◌,
}
use pan.Json
use pan.Json.{Value, Number, number, object, end}
use pan.Schema.{conclude, continue}
use pan.Governor.{Verdict}
use pan.Loop.{Provider}
use pan.Providers.{Rule, rules_provider}
use pan.Daemon.Wire.{MindKind, rules, behavior_tree, llm, InstantiateSoulBody}

-- What the session takes from elsewhere: the mind of the configured inference endpoint, if there is
-- one; doubles and their `>`; the printing of verdicts and numbers.
pub record Runtime (W : Type 0) : Type 0 where
  pub llm_mind : Option (Provider W)
  pub as_f64 : Number → ℕ
  pub above : ℕ → ℕ → Bool
  pub debug : Verdict → String
  pub decimal : ℕ → String

pub record SoulState : Type 0 where
  pub mind : MindKind
  pub soul : Value
  pub rules : List Rule

abbrev pub float_of : (Number → ℕ) → Value → Option ℕ
float_of as_f64 (number n) = some (as_f64 n)
float_of as_f64 _ = none

abbrev pub signal_of : (Number → ℕ) → Value → Option (String × ℕ)
signal_of as_f64 s = bind (bind (Json.get s "name") Json.as_str) λ name.
    bind (bind (Json.get s "threshold") (float_of as_f64)) λ threshold. some (name, threshold)

abbrev pub invoke_of : Value → Option (String × Value)
invoke_of t =
    bind (bind (Json.get t "capability") Json.as_str)
      λ cap. some (cap, unwrap_or (Json.get t "args") (object end))

-- One entry of the array; without an action it is no rule.
unfoldable pub parse_rule : (Number → ℕ) → Value → Option Rule
parse_rule as_f64 entry = bind (bind (Json.get entry "then_invoke") invoke_of) λ action.
    some (record {
      when_signal_over = bind (Json.get entry "when_signal_over") (signal_of as_f64);
      when_event_topic = bind (Json.get entry "when_event_topic") Json.as_str;
      then_invoke = action;
    })

unfoldable pub parse_rules : (Number → ℕ) → List Value → List Rule
unfolding parse_rule
parse_rules as_f64 [] = []
parse_rules as_f64 (entry ∷ entries) =
    let rest = parse_rules as_f64 entries in
    elim (parse_rule as_f64 entry) [ some r ↦ r ∷ rest | none ↦ rest ]

unfoldable pub parse_rules_from_soul : (Number → ℕ) → Value → List Rule
unfolding parse_rules
parse_rules_from_soul as_f64 soul = elim (bind (Json.get soul "rules") Json.as_array) [
  | none ↦ []
  | some entries ↦ parse_rules as_f64 entries
]

abbrev pub is_rules : MindKind → Bool
is_rules rules = true
is_rules _ = false

-- A mind that the daemon cannot host decides to continue.
unfoldable pub no_provider : {W : Type 0} → Provider W
no_provider = record {
  id = "provider.none";
  decide = λ goal ctx caps w. (record { intents = conclude continue ∷ [] }, w);
  cancelled = λ goal ctx caps w. w;
}

module _ {W : Type 0} where
  unfoldable pub advertised_minds : Runtime W → List MindKind
  advertised_minds rt = elim rt.llm_mind [ some p ↦ rules ∷ llm ∷ [] | none ↦ rules ∷ [] ]

  -- `SoulState::from_body`
  unfoldable pub from_body : Runtime W → InstantiateSoulBody → SoulState
  unfolding parse_rules_from_soul
  from_body rt b = record {
    mind = b.mind;
    soul = b.soul;
    rules = if is_rules b.mind then parse_rules_from_soul rt.as_f64 b.soul else [];
  }

  -- `SoulState::provider`
  unfoldable pub provider : Runtime W → SoulState → Provider W
  unfolding rules_provider no_provider
  provider rt soul = elim soul.mind [
    | rules ↦ rules_provider rt.above soul.rules
    | llm ↦ elim rt.llm_mind [ some p ↦ p | none ↦ no_provider ]
    | behavior_tree ↦ no_provider
  ]
