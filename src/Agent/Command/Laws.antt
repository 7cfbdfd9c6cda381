-- ===== src/Agent/Command/Laws.antt =====
-- What a typed command can ask for.
use mathlib.Core.Logic.{◌⊎◌, inl, inr}
use pan.Prelude.{◌≡◌, refl, String, List, [], ◌∷◌, none, Bool-cases, str_eq, trim, split_whitespace}
use pan.Json.{Value}
use pan.Schema.{
  Goal, Trigger, utterance, tick, event, signal, invoke, express, conclude, achieved, Decision,
}
use pan.Agent.Command.{
  say, act, with_argument, interpret_command, interpret_words, decide_by_command,
}

abbrev pub IsKnown : String → Type 0
IsKnown c =
    (c ≡ "cap.shell.run") ⊎ ((c ≡ "cap.state.set") ⊎ ((c ≡ "cap.state.get") ⊎ (c ≡ "cap.fs.write")))

-- A decision speaks and concludes, and at most once in between it invokes one of the four capabilities.
pub data IsCommand : Decision → Type 0 where
  speaks : (body : String) → IsCommand (record { intents = express body ∷ conclude achieved ∷ [] })
  acts :
      (body capability : String) (args : Value)
      → IsKnown capability
      → IsCommand
          (record { intents = express body ∷ invoke capability args none ∷ conclude achieved ∷ [] })

with_argument-IsCommand :
    (usage : String) (f : String → List String → Decision) (parts : List String)
    → ((first : String) (rest : List String) → IsCommand (f first rest))
    → IsCommand (with_argument usage f parts)
unfolding with_argument say
with_argument-IsCommand usage f [] h = speaks usage
with_argument-IsCommand usage f (first ∷ rest) h = h first rest

interpret_command-IsCommand :
    (command : String) (parts : List String) → IsCommand (interpret_command command parts)
unfolding interpret_command say act
interpret_command-IsCommand command parts = elim (Bool-cases (str_eq command "run")) [
  | inl a ↦
      rw (interpret_command, a) (with_argument-IsCommand _ _ parts λ p r. acts _ _ _ (inl refl))
  | inr a ↦ elim (Bool-cases (str_eq command "remember")) [
    | inl b ↦
        rw (interpret_command, a, b)
          (with_argument-IsCommand _ _ parts λ p r. acts _ _ _ (inr (inl refl)))
    | inr b ↦ elim (Bool-cases (str_eq command "recall")) [
      | inl c ↦
          rw (interpret_command, a, b, c)
            (with_argument-IsCommand _ _ parts λ p r. acts _ _ _ (inr (inr (inl refl))))
      | inr c ↦ elim (Bool-cases (str_eq command "write")) [
        | inl d ↦
            rw (interpret_command, a, b, c, d)
              (with_argument-IsCommand _ _ parts λ p r. acts _ _ _ (inr (inr (inr refl))))
        | inr d ↦ elim (Bool-cases (str_eq command "help")) [
          | inl e ↦ rw (interpret_command, a, b, c, d, e) (speaks _)
          | inr e ↦ elim (Bool-cases (str_eq command "")) [
            | inl f ↦ rw (interpret_command, a, b, c, d, e, f) (speaks _)
            | inr f ↦ rw (interpret_command, a, b, c, d, e, f) (speaks _)
          ]
        ]
      ]
    ]
  ]
]

interpret_words-IsCommand : (words : List String) → IsCommand (interpret_words words)
unfolding interpret_words
interpret_words-IsCommand [] = interpret_command-IsCommand "" []
interpret_words-IsCommand (command ∷ parts) = interpret_command-IsCommand command parts

-- Whatever is typed, the decision speaks once, invokes at most one of four capabilities, and achieves
-- its goal; so does that for a goal that is no utterance.
pub decide_by_command-IsCommand : (goal : Goal) → IsCommand (decide_by_command goal)
unfolding decide_by_command say
decide_by_command-IsCommand goal = of_trigger goal.trigger
  where
    of_trigger : (t : Trigger) → IsCommand (decide_by_command (record goal { trigger = t }))
    of_trigger (utterance from content) =
        interpret_words-IsCommand (split_whitespace (trim content))
    of_trigger (tick n) = speaks _
    of_trigger (event topic payload) = speaks _
    of_trigger (signal name value) = speaks _
