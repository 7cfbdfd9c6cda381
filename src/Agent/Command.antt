-- ===== src/Agent/Command.antt =====
-- pan-agent/src/command.rs and echo.rs: the providers that need no model.
pub mod Laws
use pan.Prelude.{
  String, List, [], ◌∷◌, Option, none, some, if◌then◌else◌, str_eq, trim, trim_end,
  split_whitespace, ◌⧺◌,
}
use pan.Json.{Value, text, array, object, Items, nil, cons, end, field}
use pan.Schema.{Goal, utterance, ActionIntent, invoke, express, conclude, achieved, Decision}

abbrev pub help : String
help =
    "commands: `run <program> [args…]`, `remember <key> <value…>`, `recall <key>`, `write <path> <content…>`"

unfoldable pub say : String → Decision
say body = record { intents = express body ∷ conclude achieved ∷ [] }

unfoldable pub act : String → String → Value → Decision
act narration capability args = record {
  intents = express narration ∷ invoke capability args none ∷ conclude achieved ∷ [];
}

-- `parts.join(" ")`
unfoldable pub join_words : List String → String
join_words [] = ""
join_words (w ∷ []) = w
join_words (w ∷ v ∷ ws) = w ⧺ (" " ⧺ join_words (v ∷ ws))

unfoldable pub word_items : List String → Items
word_items [] = nil
word_items (w ∷ ws) = cons (text w) (word_items ws)

-- The usage, where the first argument is missing, and else what is done with the arguments.
unfoldable pub with_argument : String → (String → List String → Decision) → List String → Decision
unfolding say
with_argument usage f [] = say usage
with_argument usage f (first ∷ rest) = f first rest

-- The arms of `match command`.
unfoldable pub interpret_command : String → List String → Decision
unfolding with_argument say act join_words word_items trim_end
interpret_command command parts =
    if str_eq command "run"
    then with_argument "usage: run <program> [args…]"
        (λ program args.
          act (trim_end ("$ " ⧺ (program ⧺ (" " ⧺ join_words args)))) "cap.shell.run"
            (object (field "args" (array (word_items args)) (field "program" (text program) end))))
        parts
    else if str_eq command "remember"
    then with_argument "usage: remember <key> <value…>"
        (λ key rest.
          act ("remembered `" ⧺ (key ⧺ "`")) "cap.state.set"
            (object (field "key" (text key) (field "value" (text (join_words rest)) end))))
        parts
    else if str_eq command "recall"
    then with_argument "usage: recall <key>"
        (λ key rest.
          act ("recalling `" ⧺ (key ⧺ "`:")) "cap.state.get" (object (field "key" (text key) end)))
        parts
    else if str_eq command "write"
    then with_argument "usage: write <path> <content…>"
        (λ path rest.
          act ("wrote `" ⧺ (path ⧺ "`")) "cap.fs.write"
            (object (field "content" (text (join_words rest)) (field "path" (text path) end))))
        parts
    else if str_eq command "help"
    then say help
    else if str_eq command ""
    then say help
    else say ("unknown command `" ⧺ (command ⧺ ("`. " ⧺ help)))

unfoldable pub interpret_words : List String → Decision
unfolding interpret_command
interpret_words [] = interpret_command "" []
interpret_words (command ∷ parts) = interpret_command command parts

-- `CommandProvider::decide`
unfoldable pub decide_by_command : Goal → Decision
unfolding trim split_whitespace interpret_words say
decide_by_command goal = elim goal.trigger [
  | utterance from content ↦ interpret_words (split_whitespace (trim content))
  | _ ↦ say help
]
