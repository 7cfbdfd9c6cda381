-- ===== src/Llm/Decide.antt =====
-- pan-llm/src/openai.rs and pan-llm/src/anthropic.rs: `decide` of both providers, with the budget of tokens.
-- The counter is added to modulo 2^64, and so are the two counts of a reply, as in a release build. A
-- decision is missing where the provider panics. What is printed for debugging is left out.
pub mod Laws
use pan.Prelude.{
  ℕ, ◌+◌, ◌%◌, ◌^◌, Bool, true, false, String, List, [], ◌∷◌, Option, none, some, Result, ok, err,
  leb, bind, unwrap_or, str_eq, if◌then◌else◌, ◌⧺◌,
}
use pan.Json.{
  Value, number, pos_int, float, text, array, object, Items, nil, cons, Fields, field, end, get,
  as_u64,
}
use pan.Schema.{Capability, Goal, Context, Decision}
use pan.Table.{Table}
use pan.Llm.Http.{Client, post_json, post_json_ex}
use pan.Llm.OpenAi.{Printing, given_up}
use pan.Llm.OpenAi as OpenAi
use pan.Llm.Anthropic.{AnthropicProvider}
use pan.Llm.Anthropic as Anthropic

-- The temperature is a double by its bits.
pub record OpenAiProvider : Type 0 where
  pub base : String
  pub model : String
  pub api_key : Option String
  pub instruction : String
  pub max_tokens : ℕ
  pub temperature : ℕ
  pub token_budget : Option ℕ
  pub tokens_used : ℕ

abbrev pub items_of : List Value → Items
items_of [] = nil
items_of (v ∷ vs) = cons v (items_of vs)

abbrev pub u64 : ℕ → ℕ
u64 n = n % 2 ^ 64

-- The test that both make before a request.
unfoldable pub over_budget : Option ℕ → ℕ → Bool
over_budget none used = false
over_budget (some budget) used = leb budget used

-- What the two providers add to their counter.
unfoldable pub total_tokens : Value → ℕ
total_tokens response =
    unwrap_or (bind (bind (get response "usage") λ usage. get usage "total_tokens") as_u64) 0

unfoldable pub input_and_output : Value → ℕ
input_and_output response = elim (get response "usage") [
  | none ↦ 0
  | some usage ↦ u64 (
      unwrap_or (bind (get usage "input_tokens") as_u64) 0
      + unwrap_or (bind (get usage "output_tokens") as_u64) 0)
]

unfoldable pub chat_request : OpenAiProvider → List Value → List Value → Value
chat_request p messages tools =
    let with_tools : Fields = elim tools [
      | [] ↦ end
      | t ∷ ts ↦ field "tool_choice" (text "auto") (field "tools" (array (items_of (t ∷ ts))) end)
    ] in
    object (
      field "max_tokens" (number (pos_int p.max_tokens)) (
        field "messages" (array (items_of messages)) (
          field "model" (text p.model)
            (field "temperature" (number (float p.temperature)) with_tools))))

unfoldable pub messages_request : AnthropicProvider → String → List Value → List Value → Value
messages_request p system messages tools =
    let with_tools : Fields = elim tools [
      | [] ↦ end
      | t ∷ ts ↦ field "tools" (array (items_of (t ∷ ts))) end
    ] in
    object (
      field "max_tokens" (number (pos_int p.max_tokens)) (
        field "messages" (array (items_of messages)) (
          field "model" (text p.model)
            (if str_eq system "" then with_tools else field "system" (text system) with_tools))))

-- What a call of `decide` comes to before it waits: its decision, or the request it
-- sends and the names of the tools.
pub data Asking : Type 0 where
  answers : Option Decision → Asking
  asks : Value → Table String → Asking

-- The part of the first provider before the wait, with the test of the shared counter.
unfoldable pub begin_openai : Printing → OpenAiProvider → Goal → Context → List Capability → Asking
unfolding over_budget chat_request OpenAi.tool_schema OpenAi.build_messages given_up
begin_openai io p goal ctx caps = elim (over_budget p.token_budget p.tokens_used) [
  | true ↦ answers (some given_up)
  | false ↦
      let (tools, name_to_id) = OpenAi.tool_schema caps in
      elim (OpenAi.build_messages io p.instruction goal ctx) [
        | none ↦ answers none
        | some messages ↦ asks (chat_request p messages tools) name_to_id
      ]
]

-- The part behind the wait, with the counter as it is then.
unfoldable pub finish_openai :
    Printing
    → OpenAiProvider
    → Table String
    → Option (Result String Value)
    → Option Decision × OpenAiProvider
unfolding total_tokens OpenAi.interpret given_up
finish_openai io p name_to_id none = (none, p)
finish_openai io p name_to_id (some (err e)) = (some given_up, p)
finish_openai io p name_to_id (some (ok response)) = (
  some (OpenAi.interpret io response name_to_id),
  record p { tokens_used = u64 (p.tokens_used + total_tokens response) },
)

-- The same of the second provider.
unfoldable pub begin_anthropic :
    Printing → AnthropicProvider → Goal → Context → List Capability → Asking
unfolding over_budget messages_request Anthropic.tool_schema Anthropic.build_messages given_up
begin_anthropic io p goal ctx caps = elim (over_budget p.token_budget p.tokens_used) [
  | true ↦ answers (some given_up)
  | false ↦
      let (tools, name_to_id) = Anthropic.tool_schema caps in
      elim (Anthropic.build_messages io p.instruction goal ctx) [
        | none ↦ answers none
        | some (system, messages) ↦ asks (messages_request p system messages tools) name_to_id
      ]
]

unfoldable pub finish_anthropic :
    AnthropicProvider
    → Table String
    → Option (Result String Value)
    → Option Decision × AnthropicProvider
unfolding input_and_output Anthropic.interpret given_up
finish_anthropic p name_to_id none = (none, p)
finish_anthropic p name_to_id (some (err e)) = (some given_up, p)
finish_anthropic p name_to_id (some (ok response)) = (
  some (Anthropic.interpret response name_to_id),
  record p { tokens_used = u64 (p.tokens_used + input_and_output response) },
)

module _ {W : Type 0} (io : Printing) (client : Client W) where
  -- The request, from which the counter plays no part.
  unfoldable pub send_openai : OpenAiProvider → Value → W → Option (Result String Value) × W
  unfolding post_json
  send_openai p body w = post_json client p.base "/chat/completions" p.api_key body w

  -- A call with no other beside it.
  unfoldable pub decide_openai :
      OpenAiProvider → Goal → Context → List Capability → W → Option Decision × OpenAiProvider × W
  unfolding begin_openai send_openai finish_openai
  decide_openai p goal ctx caps w = elim (begin_openai io p goal ctx caps) [
    | answers d ↦ (d, p, w)
    | asks body name_to_id ↦
        let (r, w') = send_openai p body w in
        let (d, p') = finish_openai io p name_to_id r in (d, p', w')
  ]

  unfoldable pub send_anthropic : AnthropicProvider → Value → W → Option (Result String Value) × W
  unfolding post_json_ex
  send_anthropic p body w =
      post_json_ex client p.base "/v1/messages" body
        (("x-api-key", p.api_key) ∷ ("anthropic-version", "2023-06-01") ∷ []) w

  unfoldable pub decide_anthropic :
      AnthropicProvider
      → Goal
      → Context
      → List Capability
      → W
      → Option Decision × AnthropicProvider × W
  unfolding begin_anthropic send_anthropic finish_anthropic
  decide_anthropic p goal ctx caps w = elim (begin_anthropic io p goal ctx caps) [
    | answers d ↦ (d, p, w)
    | asks body name_to_id ↦
        let (r, w') = send_anthropic p body w in
        let (d, p') = finish_anthropic p name_to_id r in (d, p', w')
  ]
