-- ===== src/Daemon/Mind.antt =====
-- pan-daemon/src/llm.rs: the mind of a language model. The environment, the probes at the start and the
-- printing of json are arguments; what is printed and the warm-up are left out. A decision is missing where
-- the http client panics.
pub mod Laws
use Prim.Native.Char.{Char}
use Prim.Native.String.{len}
use pan.Prelude.{
  ℕ, zero, suc, ◌+◌, Bool, true, false, not, ◌&&◌, ◌||◌, String, List, [], ◌∷◌, Option, none, some,
  Result, ok, err, and_then, map_err, ok_or, bind, unwrap_or, leb, same_char, strip_prefix,
  split_once, split_once_at, trim, trim_start, trim_end_matches, str_eq, if◌then◌else◌, ◌⧺◌,
}
use pan.Json.{
  Value, boolean, number, pos_int, float, text, array, object, nil, cons, Fields, field, end,
  as_str,
}
use pan.Schema.{
  Goal, Context, Fragment, Trigger, utterance, event, tick, signal, express, conclude, achieved,
  abandoned, Decision,
}
use pan.Agent.History.{message}
use pan.Caps.Http.{rsplit_once, parse_u16}
use pan.Llm.Http.{Client, post_json}
use pan.Llm.OpenAi.{Printing, index_key, index_at, given_up}

pub data ApiKind : Type 0 where
  open_ai_compat ollama_native : ApiKind

pub record LlmConfig : Type 0 where
  pub host : String
  pub port : ℕ
  pub model : String
  pub api : ApiKind

-- `env::var`, the exchange of a probe up to the text that it returns, `from_str` of serde_json, and
-- `{:?}` of a text.
pub record Probes : Type 0 where
  pub var : String → Option String
  pub get_raw : String → ℕ → String → Result String String
  pub from_str : String → Option Value
  pub debug : String → String

module _ (probes : Probes) where
  unfoldable pub host_of : String → Result String (String × ℕ)
  unfolding rsplit_once parse_u16
  host_of rest = elim (rsplit_once ":" rest) [
    | none ↦ ok (rest, 80)
    | some (h, p) ↦ elim (parse_u16 p) [
      | some port ↦ ok (h, port)
      | none ↦ err ("bad port " ⧺ probes.debug p)
    ]
  ]

  unfoldable pub parse_http_base : String → Result String (String × ℕ)
  unfolding strip_prefix trim_end_matches host_of
  parse_http_base base =
      and_then
        (ok_or "only http:// bases are supported (local inference)" (strip_prefix "http://" base))
        λ rest.
          and_then (host_of (trim_end_matches "/" rest))
            λ hp. if str_eq hp.0 "" then err "empty host" else ok hp

  unfoldable pub http_get : String → ℕ → String → Result String String
  unfolding split_once_at
  http_get host port path = and_then (probes.get_raw host port path) λ raw.
      elim (split_once_at "\r\n\r\n" raw) [ some p ↦ ok p.1 | none ↦ err "malformed HTTP response" ]

  unfoldable pub first_model : String → ℕ → Option String
  unfolding http_get
  first_model host port = elim (http_get host port "/v1/models") [
    | err e ↦ none
    | ok response ↦
        bind (probes.from_str response)
          λ parsed. as_str (index_key (index_at (index_key parsed "data") 0) "id")
  ]

  unfoldable pub detect_ollama : String → ℕ → Bool
  unfolding http_get
  detect_ollama host port = elim (http_get host port "/api/version") [ ok r ↦ true | err e ↦ false ]

  -- The model that the environment names, if it is not empty, and else the first of the server.
  unfoldable pub model_of : String → ℕ → Option String
  unfolding first_model
  model_of host port = elim (probes.var "PAN_LLM_MODEL") [
    | none ↦ first_model host port
    | some m ↦ if str_eq m "" then first_model host port else some m
  ]

  unfoldable pub resolve_uncached : Option LlmConfig
  unfolding parse_http_base model_of detect_ollama
  resolve_uncached = bind (probes.var "PAN_LLM_BASE") λ base. elim (parse_http_base base) [
    | err e ↦ none
    | ok (host, port) ↦ bind (model_of host port) λ model. some (record {
      host = host;
      port = port;
      model = model;
      api = if detect_ollama host port then ollama_native else open_ai_compat;
    })
  ]

abbrev pub chars : String → ℕ
chars String.[] = 0
chars (String.◌∷◌ c s) = suc (chars s)

-- What is behind the first such character.
unfoldable pub after : Char → String → Option String
after c String.[] = none
after c (String.◌∷◌ d s) = let rest = after c s in if same_char d c then some s else rest

-- What is behind a block in front, if it is closed.
unfoldable pub after_block : String → Option String
unfolding after
after_block String.[] = none
after_block (String.◌∷◌ c s) =
    if same_char c "(" then after ")" s else if same_char c "*" then after "*" s else none

-- The loop of `clean_line`; there is no text where the rounds do not do.
unfoldable pub drop_blocks : ℕ → String → Option String
unfolding trim_start after_block
drop_blocks zero t = none
drop_blocks (suc rounds) t = elim (after_block (trim_start t)) [
  | none ↦ some (trim_start t)
  | some rest ↦ drop_blocks rounds rest
]

unfoldable pub trim_start_matches : Char → String → String
trim_start_matches c String.[] = ""
trim_start_matches c (String.◌∷◌ d s) =
    let rest = trim_start_matches c s in if same_char d c then rest else String.◌∷◌ d s

-- The ends of a sentence.
abbrev pub ends_sentence : Char → Bool
ends_sentence c = same_char c "." || (same_char c "!" || (same_char c "?" || same_char c "…"))

abbrev pub ends_line : Char → Bool
ends_line c = ends_sentence c || (same_char c "\"" || same_char c "'")

unfoldable pub ends_well : String → Bool
ends_well String.[] = false
ends_well (String.◌∷◌ c String.[]) = ends_line c
ends_well (String.◌∷◌ c (String.◌∷◌ d s)) = ends_well (String.◌∷◌ d s)

-- What is before the last end of a sentence, and that character.
unfoldable pub last_end : String → Option (String × Char)
last_end String.[] = none
last_end (String.◌∷◌ c s) = elim (last_end s) [
  | some (b, e) ↦ some (String.◌∷◌ c b, e)
  | none ↦ if ends_sentence c then some ("", c) else none
]

-- The cut of a tail that was not finished.
unfoldable pub cut_tail : String → String
unfolding ends_well last_end
cut_tail line =
    if not (str_eq line "") && not (ends_well line)
    then (elim (last_end line) [
      | some (b, e) ↦ if leb 20 (len b) then b ⧺ String.◌∷◌ e "" else line
      | none ↦ line
    ])
    else line

unfoldable pub clean_line : String → String
unfolding trim drop_blocks trim_end_matches trim_start_matches cut_tail
clean_line raw =
    let spoken = unwrap_or (drop_blocks (suc (chars (trim raw))) (trim raw)) "" in
    cut_tail (trim (trim_end_matches "\"" (trim_start_matches "\"" (trim spoken))))

unfoldable pub sections : List Fragment → String → String
sections [] direction = direction
sections (f ∷ fs) direction =
    "[" ⧺ (f.channel ⧺ ("]\n" ⧺ (f.body ⧺ ("\n\n" ⧺ sections fs direction))))

unfoldable pub system_prompt : Goal → Context → String
unfolding sections
system_prompt goal ctx = sections ctx.fragments (
    "[direction]\n"
    ⧺ (goal.objective
        ⧺ "\nAnswer with your character's next spoken line only — no stage directions, no quotation marks, no name prefix."))

module _ {W : Type 0} (io : Printing) (client : Client W) where
  unfoldable pub user_turn : Trigger → String
  user_turn (utterance from content) = from ⧺ (" says: " ⧺ content)
  user_turn (event topic payload) =
      "(something happens: " ⧺ (topic ⧺ (" " ⧺ (io.to_string payload ⧺ ")")))
  user_turn (tick _) = "(a quiet moment passes)"
  user_turn (signal name value) = "(reading: " ⧺ (name ⧺ (" = " ⧺ (io.double value ⧺ ")")))

  -- The path and the body of a request; 0.8 is a double by its bits.
  unfoldable pub chat_request : LlmConfig → Value → ℕ → String × Value
  chat_request config messages max_tokens = elim config.api [
    | ollama_native ↦ (
      "/api/chat",
      object (
          field "messages" messages (
            field "model" (text config.model) (
              field "options"
                (object (
                  field "num_predict" (number (pos_int max_tokens))
                    (field "temperature" (number (float 0x3FE999999999999A)) end)))
                (field "stream" (boolean false) (field "think" (boolean false) end))))),
    )
    | open_ai_compat ↦ (
      "/v1/chat/completions",
      object (
          field "max_tokens" (number (pos_int max_tokens)) (
            field "messages" messages (
              field "model" (text config.model) (
                field "temperature" (number (float 0x3FE999999999999A))
                  (field "think" (boolean false) end))))),
    )
  ]

  unfoldable pub chat : LlmConfig → Value → ℕ → W → Option (Result String String) × W
  unfolding chat_request post_json
  chat config messages max_tokens w =
      let (path, body) = chat_request config messages max_tokens in
      let base = "http://" ⧺ (config.host ⧺ (":" ⧺ client.decimal config.port)) in
      let (r, w') = post_json client base path none body w in
      (
        elim r [
          | none ↦ none
          | some (err e) ↦ some (err e)
          | some (ok response) ↦
              let content : Value = elim config.api [
                | ollama_native ↦ index_key (index_key response "message") "content"
                | open_ai_compat ↦
                    index_key (index_key (index_at (index_key response "choices") 0) "message")
                      "content"
              ] in
              some (ok (unwrap_or (as_str content) ""))
        ],
        w',
      )

  abbrev pub max_completion_tokens : ℕ
  max_completion_tokens = 200

  unfoldable pub speak : String → Decision
  unfolding clean_line given_up
  speak raw =
      let line = clean_line raw in
      if str_eq line ""
      then given_up
      else record { intents = express line ∷ conclude achieved ∷ [] }

  unfoldable pub decide_mind : LlmConfig → Goal → Context → W → Option Decision × W
  unfolding system_prompt user_turn chat speak given_up message
  decide_mind config goal ctx w =
      let messages = array (
        cons (message "system" (system_prompt goal ctx))
          (cons (message "user" (user_turn goal.trigger)) nil)) in
      let (r, w') = chat config messages max_completion_tokens w in
      (elim r [ none ↦ none | some (err e) ↦ some given_up | some (ok raw) ↦ some (speak raw) ], w')
