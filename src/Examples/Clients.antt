-- ===== src/Examples/Clients.antt =====
-- The clients of language models and their http, at servers that answer always the same.
use pan.Prelude.{
  ℕ, ◌+◌, ◌≤◌, ◌≡◌, refl, ap, subst, ◌∙◌, String, [], none, some, ok, err, ok-injective, arith,
  trim, unwrap_or, ◌∷◌,
}
use pan.Json.{Value, null, number, pos_int, text, array, object, nil, cons, field, end}
use pan.Schema.{express, invoke}
use pan.Llm.Http.{
  Target, Client, parse_base, build_request_ex, parse_response, post_json_ex, post_json, bearer,
  exhausted, scheme_of, host_and_port, split_response_body, status_code, preview,
}
use pan.Llm.Http.Laws.{post_json_ex-Within, post_json_ex-steady}
use pan.Llm.Download.{Downloads, Bytes, get_bytes_async}
use pan.Llm.Download.Laws.{Fetches, get_bytes_async-answered}
use pan.Llm.OpenAi.{Printing, build_messages, tool_schema}
use pan.Table.{Table}
use pan.Llm.Decide.{
  OpenAiProvider, total_tokens, chat_request, begin_openai, send_openai, finish_openai,
}
use pan.Llm.Decide.Laws.{
  Question, Shared, Reached, starts, begins, finishes, IsWithin, Reached-IsWithin,
}
use pan.Llm.Anthropic.{interpret, use_of, text_of}
use pan.Llm.Anthropic.Laws.{texts_of, sentence, behind, interpret-blocks}
use pan.Examples.Data.{echo, goal, no_context}

-- The world counts the exchanges.
abbrev answering : String → Client ℕ
answering raw = record {
  exchange = λ t r w. (ok raw, w + 1);
  sleep = λ ms w. w;
  subsec_nanos = λ w. 0;
  decimal = λ n. "1";
  debug = λ s. s;
  version = "1";
  to_string = λ v. "{}";
  from_str =
      λ s. ok (object (field "usage" (object (field "total_tokens" (number (pos_int 5)) end)) end));
}

abbrev busy : Client ℕ
busy = answering "HTTP/1.0 429 Busy\r\nRetry-After: 2\r\n\r\nslow"

abbrev steady_host : Target
steady_host = record { scheme = pan.Llm.Http.http; host = "h"; port = 80; full_path = "/chat" }

post_json_ex-steady_example :
    let p = post_json_ex busy "http://h" "/chat" null [] 3 in
    (p.0 ≡ some (err (exhausted busy (some (429, "slow"))))) × (p.1 ≡ 3 + 4)
unfolding parse_base scheme_of host_and_port parse_response split_response_body status_code preview
post_json_ex-steady_example =
    post_json_ex-steady busy (λ w. w) (λ ms w. refl) "http://h" "/chat" null [] 3 (λ t r w. refl)
      steady_host 429 "slow" refl refl
      (λ w. ("HTTP/1.0 429 Busy\r\nRetry-After: 2\r\n\r\nslow", refl, refl))

abbrev glad : Client ℕ
glad = answering "HTTP/1.0 200 OK\r\n\r\n{}"

abbrev usage : Value
usage = object (field "usage" (object (field "total_tokens" (number (pos_int 5)) end)) end)

post_json_ex-Within_example :
    let p = post_json_ex glad "http://h" "/chat" null [] 3 in
    (p.1 ≤ 3 + 4)
    × ((v : Value)
        → p.0 ≡ some (ok v)
        → (target : Target) × (raw : String) × (w' : ℕ) × (parse_base glad "http://h" "/chat"
            ≡ ok target)
          × ((glad.exchange target
                (build_request_ex glad target.host target.full_path null [])
                w').0
              ≡ ok raw)
          × (parse_response glad raw ≡ some (ok v)))
post_json_ex-Within_example =
    post_json_ex-Within glad (λ w. w) (λ ms w. refl) "http://h" "/chat" null [] 3 (λ t r w. refl)

abbrev printing : Printing
printing = record {
  from_str = λ s. none;
  to_string = λ v. "{}";
  decimal = λ n. "1";
  double = λ n. "1";
}

-- Every reply is the one value that the parser makes.
replies :
    (p : OpenAiProvider) (body v : Value) (w : ℕ)
    → (send_openai printing glad p body w).0 ≡ some (ok v)
    → total_tokens v ≤ 5
unfolding send_openai post_json total_tokens parse_response split_response_body status_code preview
replies p body v w h =
    let bounded =
      post_json_ex-Within glad (λ w. w) (λ ms w. refl) p.base "/chat/completions" body
        (bearer glad p.api_key) w (λ t r w. refl) in
    let (target, raw, w', b, x, y) = bounded.1 v h in
    let same : "HTTP/1.0 200 OK\r\n\r\n{}" ≡ raw = ok-injective x in
    let parsed : parse_response glad "HTTP/1.0 200 OK\r\n\r\n{}" ≡ some (ok v) =
      ap (parse_response glad) same ∙ y in
    let value : usage ≡ v = cc in subst (λ u. total_tokens u ≤ 5) value (omega arith)

abbrev small_provider : OpenAiProvider
small_provider = record {
  base = "http://h";
  model = "small";
  api_key = none;
  instruction = "be brief";
  max_tokens = 512;
  temperature = 0;
  token_budget = some 12;
  tokens_used = 10;
}

abbrev question : Question
question = record { goal = goal; context = no_context; capabilities = echo ∷ [] }

abbrev request : Value
request =
    chat_request small_provider (unwrap_or (build_messages printing "be brief" goal no_context) [])
      (tool_schema (echo ∷ [])).0

abbrev tool_names : Table String
tool_names = (tool_schema (echo ∷ [])).1

-- Two calls wait for their replies, and then the one that began first goes on.
abbrev two_waiting : Shared
two_waiting = record {
  provider = small_provider;
  waiting = (request, tool_names) ∷ (request, tool_names) ∷ [];
}

abbrev one_answered : Shared
one_answered = record {
  provider =
      (finish_openai printing small_provider tool_names
        (send_openai printing glad small_provider request 0).0).1;
  waiting = (request, tool_names) ∷ [];
}

two_calls : Reached printing glad 2 small_provider one_answered
unfolding begin_openai build_messages
two_calls = finishes {s = two_waiting} ((request, tool_names) ∷ []) request tool_names [] 0 refl (
    begins question request tool_names (omega arith) refl
      (begins question request tool_names (omega arith) refl starts))

Reached-IsWithin_example : IsWithin printing glad 12 5 2 (omega arith) replies one_answered
Reached-IsWithin_example =
    Reached-IsWithin printing glad 12 5 2 (omega arith) replies small_provider one_answered refl
      (omega arith) two_calls

abbrev downloads : Downloads ℕ
downloads = record {
  raw_exchange = λ t r w. (ok (13 ∷ 10 ∷ 13 ∷ 10 ∷ 88 ∷ []), w + 1);
  from_utf8 = λ bs. ok "HTTP/1.0 200 OK";
  from_utf8_lossy = λ bs. "";
  from_slice = λ bs. ok null;
}

get_bytes_async-answered_example :
    let p = get_bytes_async glad downloads "http://h/x" 0 in
    (p.1 ≤ 0 + 5)
    × ((bytes : Bytes) → p.0 ≡ ok bytes → Fetches glad downloads 5 "http://h/x" 0 bytes p.1)
get_bytes_async-answered_example =
    get_bytes_async-answered glad downloads (λ w. w) (λ t r w. refl) "http://h/x" 0

abbrev words : Value
words = object (field "text" (text " hello ") (field "type" (text "text") end))

abbrev more_words : Value
more_words = object (field "text" (text "there") (field "type" (text "text") end))

abbrev tool_use : Value
tool_use = object (
    field "id" (text "t1") (
      field "input" (object end)
        (field "name" (text "cap_echo") (field "type" (text "tool_use") end))))

abbrev model_reply : Value
model_reply =
    object (field "content" (array (cons words (cons tool_use (cons more_words nil)))) end)

interpret-blocks_example :
    (interpret model_reply (("cap_echo", "cap.echo") ∷ [])).intents
    ≡ express "hello there" ∷ invoke "cap.echo" (object end) (some "t1") ∷ []
unfolding texts_of sentence behind use_of text_of trim
interpret-blocks_example =
    interpret-blocks model_reply (("cap_echo", "cap.echo") ∷ [])
      (words ∷ tool_use ∷ more_words ∷ []) refl refl
