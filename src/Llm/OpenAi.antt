-- ===== src/Llm/OpenAi.antt =====
-- pan-llm/src/openai.rs: the tools, the transcript and the replies of `OpenAiProvider`; the request
-- itself is input and output. Parsing and printing json are arguments.

pub mod Laws
use Prim.Native.String.{len, slice}
use package.text.Mathlib.Text.{is_char_boundary}
use pan.Prelude.{
  ℕ, Bool, true, false, ◌&&◌, ◌||◌, not, String, List, [], ◌∷◌, ◌++◌, Option, none, some, Result,
  ok, err, ltb, bind, unwrap_or, retain, trim, is_blank, same_char, get_elem?, str_eq,
  if◌then◌else◌, ◌⧺◌,
}
use pan.Json.{Value, null, text, array, object, Items, nil, cons, field, end, get, as_array, as_str}
use pan.Schema.{
  Capability, Goal, Context, Fragment, Trigger, utterance, event, tick, signal, ActionIntent,
  invoke, express, conclude, abandoned, achieved, Decision,
}
use pan.Table.{Table, lookup, insert}
use pan.Loop.Enact.{tool_result_channel}
use pan.Agent.History.{message}

-- What serde_json and the standard library do: `from_str`, `to_string`, and `{}` of a length and of a
-- double.
pub record Printing : Type 0 where
  pub from_str : String → Option Value
  pub to_string : Value → String
  pub decimal : ℕ → String
  pub double : ℕ → String

-- `capability_id.replace('.', "_")`
unfoldable pub sanitize : String → String
sanitize String.[] = String.[]
sanitize (String.◌∷◌ c s) =
    let rest = sanitize s in String.◌∷◌ (if same_char c "." then "_" else c) rest

unfoldable pub tool_of : Capability → Value
unfolding sanitize
tool_of cap = object (
    field "function"
      (object (
        field "description" (text cap.summary)
          (field "name" (text (sanitize cap.id)) (field "parameters" cap.args_schema end))))
      (field "type" (text "function") end))

unfoldable pub tools_of : List Capability → List Value
unfolding tool_of
tools_of [] = []
tools_of (cap ∷ caps) = tool_of cap ∷ tools_of caps

unfoldable pub names_of : List Capability → Table String → Table String
unfolding sanitize insert
names_of [] m = m
names_of (cap ∷ caps) m = names_of caps (insert (sanitize cap.id) cap.id m)

unfoldable pub tool_schema : List Capability → List Value × Table String
unfolding tools_of names_of
tool_schema caps = (tools_of caps, names_of caps [])

-- `value[key]` and `value[index]`, which are `Null` where there is none.
abbrev pub index_key : Value → String → Value
index_key v k = unwrap_or (get v k) null

abbrev pub index_at : Value → ℕ → Value
index_at v i = unwrap_or (bind (as_array v) λ vs. get_elem? vs i) null

-- `crate::abandoned`, without what it prints
unfoldable pub given_up : Decision
given_up = record { intents = conclude abandoned ∷ [] }

module _ (io : Printing) where
  -- One of the calls.
  unfoldable pub call_intent : Table String → Value → ActionIntent
  unfolding lookup
  call_intent name_to_id call =
      let function = index_key call "function" in
      let sent_name = unwrap_or (bind (get function "name") as_str) "" in
      let args = bind (bind (get function "arguments") as_str) io.from_str in
      invoke (unwrap_or (lookup sent_name name_to_id) sent_name) (unwrap_or args (object end))
        (bind (get call "id") as_str)

  unfoldable pub call_intents : Table String → List Value → List ActionIntent
  unfolding call_intent
  call_intents m [] = []
  call_intents m (call ∷ calls) = call_intent m call ∷ call_intents m calls

  -- The trimmed content, where it is not empty.
  unfoldable pub content_of : Value → Option String
  unfolding trim
  content_of message =
      bind (bind (get message "content") as_str)
        λ s. if str_eq (trim s) "" then none else some (trim s)

  abbrev pub spoken : Option String → List ActionIntent
  spoken none = []
  spoken (some s) = express s ∷ []

  unfoldable pub interpret_message : Value → Table String → Decision
  unfolding content_of call_intents
  interpret_message message name_to_id =
      let final_answer : Decision = record {
        intents = spoken (content_of message) ++ conclude achieved ∷ [];
      } in
      elim (bind (get message "tool_calls") as_array) [
        | none ↦ final_answer
        | some [] ↦ final_answer
        | some (call ∷ calls) ↦ record {
          intents = spoken (content_of message) ++ call_intents name_to_id (call ∷ calls);
        }
      ]

  unfoldable pub interpret : Value → Table String → Decision
  unfolding interpret_message given_up
  interpret response name_to_id = elim (get response "error") [
    | some e ↦ given_up
    | none ↦
        interpret_message (index_key (index_at (index_key response "choices") 0) "message")
          name_to_id
  ]

abbrev pub max_tool_output_chars : ℕ
max_tool_output_chars = 32768

-- The answer to a fragment: it is skipped, it is replayed as two messages, or the provider panics.
pub data Replay : Type 0 where
  skipped panicked : Replay
  exchange : Value → Value → Replay

module _ (io : Printing) where
  -- `trigger_to_text` of pan-llm/src/lib.rs
  unfoldable pub trigger_to_text : Trigger → String
  trigger_to_text (utterance from content) = from ⧺ (": " ⧺ content)
  trigger_to_text (event topic payload) =
      "(event: " ⧺ (topic ⧺ (" " ⧺ (io.to_string payload ⧺ ")")))
  trigger_to_text (tick _) = "(a quiet moment passes)"
  trigger_to_text (signal name value) = "(signal: " ⧺ (name ⧺ (" = " ⧺ (io.double value ⧺ ")")))

  -- A result too long is cut at a byte, which panics inside of a character.
  unfoldable pub clipped : String → Option String
  clipped s =
      if ltb max_tool_output_chars (len s)
      then if is_char_boundary s max_tool_output_chars
        then some (
            slice s 0 max_tool_output_chars
            ⧺ ("...[truncated: " ⧺ (io.decimal (len s) ⧺ " total chars]")))
        else none
      else some s

  unfoldable pub outcome_text : Value → Option String
  unfolding clipped
  outcome_text parsed = elim (get parsed "result") [
    | some result ↦ clipped (io.to_string result)
    | none ↦ elim (get parsed "error") [
      | some error ↦ some ("error: " ⧺ io.to_string error)
      | none ↦ some "null"
    ]
  ]

  unfoldable pub exchange_of : String → String → String → String → Replay
  unfolding sanitize
  exchange_of capability id arguments content =
      exchange
        (object (
          field "content" (text "") (
            field "role" (text "assistant") (
              field "tool_calls"
                (array (
                  cons
                    (object (
                      field "function"
                        (object (
                          field "arguments" (text arguments)
                            (field "name" (text (sanitize capability)) end)))
                        (field "id" (text id) (field "type" (text "function") end))))
                    nil))
                end))))
        (object (
          field "content" (text content)
            (field "role" (text "tool") (field "tool_call_id" (text id) end))))

  unfoldable pub replay_exchange : String → Replay
  unfolding outcome_text exchange_of
  replay_exchange body = elim (io.from_str body) [
    | none ↦ skipped
    | some parsed ↦ elim (bind (get parsed "capability") as_str) [
      | none ↦ skipped
      | some capability ↦ elim (outcome_text parsed) [
        | none ↦ panicked
        | some content ↦
            exchange_of capability (unwrap_or (bind (get parsed "correlation") as_str) "call_0")
              (elim (get parsed "args") [ some a ↦ io.to_string a | none ↦ "{}" ]) content
      ]
    ]
  ]

  unfoldable pub spaced : String → String → String
  spaced system more = if str_eq system "" then more else system ⧺ ("\n\n" ⧺ more)

  -- The system prompt, of the fragments that are neither results nor history.
  unfoldable pub system_of : List Fragment → String → String
  unfolding spaced
  system_of [] system = system
  system_of (f ∷ fs) system = system_of fs (
      if str_eq f.channel tool_result_channel || str_eq f.channel "history"
      then system
      else spaced system ("[" ⧺ (f.channel ⧺ ("]\n" ⧺ f.body))))

  unfoldable pub is_turn : Value → Bool
  is_turn turn = elim (bind (get turn "role") as_str) [
    | some role ↦ str_eq role "user" || str_eq role "assistant"
    | none ↦ false
  ]

  unfoldable pub history_of : List Fragment → List Value
  unfolding is_turn
  history_of [] = []
  history_of (f ∷ fs) =
      let rest = history_of fs in
      if str_eq f.channel "history"
      then (elim (bind (io.from_str f.body) as_array) [
        | some turns ↦ retain is_turn turns ++ rest
        | none ↦ rest
      ])
      else rest

  -- The exchanges of the results, unless one of them panics.
  unfoldable pub exchanges_of : List Fragment → Option (List Value)
  unfolding replay_exchange
  exchanges_of [] = some []
  exchanges_of (f ∷ fs) =
      let rest = exchanges_of fs in
      if str_eq f.channel tool_result_channel
      then (elim (replay_exchange f.body) [
        | skipped ↦ rest
        | panicked ↦ none
        | exchange a t ↦ bind rest λ more. some (a ∷ t ∷ more)
      ])
      else rest

  unfoldable pub build_messages : String → Goal → Context → Option (List Value)
  unfolding system_of history_of exchanges_of trigger_to_text spaced is_blank message
  build_messages instruction goal ctx =
      let prompt = system_of ctx.fragments (trim instruction) in
      let system =
        if is_blank goal.objective
        then prompt
        else spaced prompt ("[objective]\n" ⧺ trim goal.objective) in
      bind (exchanges_of ctx.fragments) λ exchanges. some (
        message "system" system
        ∷ (history_of ctx.fragments ++ message "user" (trigger_to_text goal.trigger) ∷ exchanges))
