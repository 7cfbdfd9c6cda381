-- ===== src/Llm/Anthropic.antt =====
-- pan-llm/src/anthropic.rs: the tools, the transcript, the replies and the decisions of
-- `AnthropicProvider`. What it shares with the OpenAI client, line by line, is taken from there. Sums of
-- tokens wrap around at 2^64, as in a release build.
pub mod Laws
use pan.Prelude.{
  ℕ, ◌+◌, ◌%◌, ◌^◌, Bool, true, false, not, String, List, [], ◌∷◌, ◌++◌, Option, none, some, Result,
  ok, err, leb, any, bind, unwrap_or, trim, is_blank, str_eq, if◌then◌else◌, ◌⧺◌,
}
use pan.Json.{
  Value, null, number, pos_int, text, array, object, Items, nil, cons, Fields, field, end, get,
  as_array, as_str, as_u64,
}
use pan.Schema.{
  Capability, Goal, Context, Fragment, Trigger, ActionIntent, invoke, express, conclude, achieved,
  Decision,
}
use pan.Table.{Table, lookup, insert}
use pan.Loop.Enact.{tool_result_channel}
use pan.Agent.History.{message}
use pan.Llm.Http.{Client, post_json_ex}
use pan.Llm.OpenAi.{
  Printing, sanitize, names_of, given_up, trigger_to_text, outcome_text, spaced, system_of,
  history_of, Replay, skipped, panicked, exchange,
}

pub record AnthropicProvider : Type 0 where
  pub base : String
  pub model : String
  pub api_key : String
  pub instruction : String
  pub max_tokens : ℕ
  pub token_budget : Option ℕ
  pub tokens_used : ℕ

unfoldable pub input_tool : Capability → Value
unfolding sanitize
input_tool cap = object (
    field "description" (text cap.summary)
      (field "input_schema" cap.args_schema (field "name" (text (sanitize cap.id)) end)))

unfoldable pub input_tools : List Capability → List Value
unfolding input_tool
input_tools [] = []
input_tools (cap ∷ caps) = input_tool cap ∷ input_tools caps

unfoldable pub tool_schema : List Capability → List Value × Table String
unfolding input_tools names_of
tool_schema caps = (input_tools caps, names_of caps [])

-- `Some("text")` and `Some("tool_use")` of `block.get("type")`
abbrev pub is_type : String → Value → Bool
is_type name block = elim (bind (get block "type") as_str) [ some t ↦ str_eq t name | none ↦ false ]

-- The trimmed text of a block, where it is not empty.
unfoldable pub text_of : Value → Option String
unfolding trim
text_of block =
    bind (bind (get block "text") as_str) λ s. if str_eq (trim s) "" then none else some (trim s)

-- What is said, with one more text.
unfoldable pub said : Option String → Option String → Option String
said prev none = prev
said none (some s) = some s
said (some p) (some s) = if str_eq p "" then some s else some (p ⧺ (" " ⧺ s))

unfoldable pub use_of : Table String → Value → ActionIntent
unfolding lookup
use_of name_to_id block =
    let name = unwrap_or (bind (get block "name") as_str) "" in
    invoke (unwrap_or (lookup name name_to_id) name) (unwrap_or (get block "input") null)
      (bind (get block "id") as_str)

-- The loop over the blocks.
unfoldable pub read_blocks :
    Table String
    → List Value
    → Option String
    → List ActionIntent
    → Option String × List ActionIntent
unfolding text_of said use_of
read_blocks m [] express_text invokes = (express_text, invokes)
read_blocks m (block ∷ blocks) express_text invokes =
    let is_text = is_type "text" block in
    let is_use = is_type "tool_use" block in
    read_blocks m blocks (if is_text then said express_text (text_of block) else express_text)
      (if is_text then invokes else if is_use then invokes ++ use_of m block ∷ [] else invokes)

unfoldable pub interpret_content : List Value → Table String → Decision
unfolding read_blocks
interpret_content content name_to_id =
    let (express_text, invokes) = read_blocks name_to_id content none [] in
    record {
      intents =
          elim express_text [ some t ↦ express t ∷ [] | none ↦ [] ]
          ++ (invokes ++ (if any (is_type "tool_use") content then [] else conclude achieved ∷ []));
    }

unfoldable pub interpret : Value → Table String → Decision
unfolding interpret_content given_up
interpret response name_to_id = elim (get response "error") [
  | some e ↦ given_up
  | none ↦ elim (bind (get response "content") as_array) [
    | none ↦ given_up
    | some content ↦ interpret_content content name_to_id
  ]
]

-- A turn of the history, with nothing but its role and its text.
unfoldable pub turn_message : Value → Option Value
turn_message msg =
    let content = unwrap_or (bind (get msg "content") as_str) "" in
    elim (bind (get msg "role") as_str) [
      | none ↦ none
      | some role ↦
          if str_eq role "user"
          then some (message "user" content)
          else if str_eq role "assistant"
          then some (message "assistant" content)
          else none
    ]

unfoldable pub turn_messages : List Value → List Value
unfolding turn_message
turn_messages [] = []
turn_messages (msg ∷ msgs) =
    let rest = turn_messages msgs in elim (turn_message msg) [ some v ↦ v ∷ rest | none ↦ rest ]

-- An object with a role and one block.
abbrev pub block_message : String → Value → Value
block_message role block =
    object (field "content" (array (cons block nil)) (field "role" (text role) end))

module _ (io : Printing) where
  unfoldable pub tool_exchange : String → String → String → String → Replay
  unfolding sanitize
  tool_exchange capability id arguments result =
      exchange
        (block_message "assistant" (
          object (
            field "id" (text id) (
              field "input" (text arguments)
                (field "name" (text (sanitize capability)) (field "type" (text "tool_use") end))))))
        (block_message "user" (
          object (
            field "content" (text result)
              (field "tool_use_id" (text id) (field "type" (text "tool_result") end)))))

  unfoldable pub replay_tool_exchange : String → Replay
  unfolding outcome_text tool_exchange
  replay_tool_exchange body = elim (io.from_str body) [
    | none ↦ skipped
    | some parsed ↦ elim (bind (get parsed "capability") as_str) [
      | none ↦ skipped
      | some capability ↦ elim (outcome_text io parsed) [
        | none ↦ panicked
        | some result ↦
            tool_exchange capability (unwrap_or (bind (get parsed "correlation") as_str) "toolu_0")
              (elim (get parsed "args") [ some a ↦ io.to_string a | none ↦ "{}" ]) result
      ]
    ]
  ]

  unfoldable pub tool_exchanges : List Fragment → Option (List Value)
  unfolding replay_tool_exchange
  tool_exchanges [] = some []
  tool_exchanges (f ∷ fs) =
      let rest = tool_exchanges fs in
      if str_eq f.channel tool_result_channel
      then (elim (replay_tool_exchange f.body) [
        | skipped ↦ rest
        | panicked ↦ none
        | exchange a t ↦ bind rest λ more. some (a ∷ t ∷ more)
      ])
      else rest

  -- The system prompt and the messages, unless an exchange panics.
  unfoldable pub build_messages : String → Goal → Context → Option (String × List Value)
  unfolding system_of history_of turn_messages tool_exchanges trigger_to_text spaced is_blank
      message
  build_messages instruction goal ctx =
      let prompt = system_of io ctx.fragments (trim instruction) in
      let system =
        if is_blank goal.objective
        then prompt
        else spaced io prompt ("[objective]\n" ⧺ trim goal.objective) in
      bind (tool_exchanges ctx.fragments) λ exchanges. some (
        system,
        turn_messages (history_of io ctx.fragments)
            ++ message "user" (trigger_to_text io goal.trigger) ∷ exchanges,
      )
