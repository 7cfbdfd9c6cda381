-- ===== src/Agent/History.antt =====
-- pan-agent/src/context.rs: the assemblers of a span's context. Printing json is serde_json's
-- `to_string`, an argument; so are `to_lowercase` and the reading of the state file.
pub mod Laws
use pan.Prelude.{
  ℕ, ◌*◌, Bool, ◌||◌, String, List, [], ◌∷◌, ◌++◌, Option, none, some, Result, ok, err, ok_or,
  map_ok, bind, unwrap_or, str_eq, if◌then◌else◌, strip_prefix, is_some, ◌⧺◌,
}
use pan.Json.{Value, text, array, object, Items, nil, cons, field, end, get, as_u64, as_str}
use pan.Schema.{Goal, utterance, Context, with_fragment}
use pan.Loop.{RunReport}
use pan.Components.{ComponentConfig, ComponentError, construction}
use pan.Agent.Session.{SessionStore, SessionTurn, Lines, new, with_max_turns, trim_to, turns}

pub record RollingConversationHistory : Type 0 where
  pub max_turns : ℕ
  pub history : List Value

-- `json!({"role": role, "content": content})`, its keys in order
unfoldable pub message : String → String → Value
message role content = object (field "content" (text content) (field "role" (text role) end))

unfoldable pub user_content : Goal → String
user_content goal = elim goal.trigger [ utterance from content ↦ content | _ ↦ goal.objective ]

unfoldable pub replies : List String → List Value
unfolding message
replies [] = []
replies (body ∷ rest) =
    let others = replies rest in
    if str_eq body "" then others else message "assistant" body ∷ others

unfoldable pub commit : RollingConversationHistory → Goal → RunReport → RollingConversationHistory
unfolding message user_content replies trim_to
commit h goal report = record h {
  history =
      trim_to (h.max_turns * 2)
        (h.history ++ message "user" (user_content goal) ∷ replies report.expressed);
}

unfoldable pub items : List Value → Items
items [] = nil
items (v ∷ vs) = cons v (items vs)

abbrev pub default_context : Context
default_context = record { fragments = [] }

-- The context with the messages as its history, if there are messages.
unfoldable pub with_history : (Value → String) → List Value → Context
unfolding items with_fragment
with_history to_string [] = default_context
with_history to_string (v ∷ vs) =
    with_fragment default_context "history" (to_string (array (items (v ∷ vs))))

unfoldable pub assemble : (Value → String) → RollingConversationHistory → Context
unfolding with_history
assemble to_string h = with_history to_string h.history

unfoldable pub build_rolling_history :
    ComponentConfig → Result ComponentError RollingConversationHistory
build_rolling_history cfg =
    ok (record {
      max_turns = unwrap_or (bind (get cfg.settings "max_turns") as_u64) 20;
      history = [];
    })

-- `expressed.join("\n")`
unfoldable pub join_lines : List String → String
join_lines [] = ""
join_lines (s ∷ []) = s
join_lines (s ∷ t ∷ rest) = s ⧺ ("\n" ⧺ join_lines (t ∷ rest))

unfoldable pub turn_messages : List SessionTurn → List Value
unfolding message join_lines
turn_messages [] = []
turn_messages (t ∷ ts) =
    message "user" t.objective ∷ message "assistant" (join_lines t.expressed) ∷ turn_messages ts

-- `SessionContextAssembler::assemble`
unfoldable pub assemble_session : (Value → String) → SessionStore → Context
unfolding turn_messages turns with_history
assemble_session to_string s = with_history to_string (turn_messages (turns s))

-- `file_at` is what stands at a path.
unfoldable pub build_session :
    Lines → (String → Option String) → ComponentConfig → Result ComponentError SessionStore
unfolding new with_max_turns
build_session io file_at cfg =
    map_ok
      (λ path.
        with_max_turns (new io (file_at path))
          (unwrap_or (bind (get cfg.settings "max_turns") as_u64) 100))
      (ok_or (construction cfg.id "context.session requires a `path` setting (session file path)")
        (bind (get cfg.settings "path") as_str))

-- `s.contains(pattern)`
unfoldable pub contains_text : String → String → Bool
unfolding strip_prefix
contains_text String.[] p = is_some (strip_prefix p String.[])
contains_text (String.◌∷◌ c s) p = is_some (strip_prefix p (String.◌∷◌ c s)) || contains_text s p

-- The loop of `MemoryRetrievalAssembler::assemble` over the facts, with their values printed.
unfoldable pub recall : (String → String) → String → List (String × String) → Context → Context
unfolding contains_text with_fragment
recall to_lowercase query [] ctx = ctx
recall to_lowercase query ((key, value) ∷ facts) ctx = recall to_lowercase query facts (
    if contains_text (to_lowercase (key ⧺ (" " ⧺ value))) query
      || contains_text query (to_lowercase key)
    then with_fragment ctx "memory" (key ⧺ (": " ⧺ value))
    else ctx)

unfoldable pub assemble_memory : (String → String) → List (String × String) → Goal → Context
unfolding recall
assemble_memory to_lowercase facts goal =
    recall to_lowercase (to_lowercase goal.objective) facts default_context
