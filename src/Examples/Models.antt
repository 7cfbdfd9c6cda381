-- ===== src/Examples/Models.antt =====
-- Configuration, models and capability components.
use pan.Prelude.{
  ◌+◌, ◌≤◌, ◌≡◌, refl, ◌⊎◌, true, String, List, [], ◌∷◌, none, some, ok, unwrap_or, strip_prefix,
  same_char,
}
use pan.Json.{Value, text, object, field, end, boolean}
use pan.Schema.{Context, estimate_tokens}
use pan.Table.{Table, lookup}
use pan.Governor.Host.{check_host, host_allowed, host_matches, extract_host}
use pan.Config.Expand.{Environment, expand_env_vars, name_char}
use pan.Config.Expand.Laws.{
  Piece, char, in_braces, ended_by, render, meaning, expand_env_vars-render,
}
use pan.Llm.Compactor.{compact, essentials}
use pan.Llm.Compactor.Laws.{compact-fits}
use pan.Llm.OpenAi.{Printing, tool_schema, call_intent}
use pan.Llm.OpenAi.Laws.{last_named, target, call_intent-target}
use pan.Caps.Http.{ParsedUrl, parse_url}
use pan.Caps.Http.Laws.{Names, allowed-connects_listed}
use pan.Caps.State.{Storage, begin_state}
use pan.Caps.State.Laws.{Call, Running}
use pan.Examples.Data.{ci, echo}

abbrev home : Environment
home = record { var = λ name. some "root"; is_alphanumeric = λ c. same_char c "H" }

abbrev pieces : List Piece
pieces = char "a" ∷ in_braces "HH" ∷ ended_by "H" "" "/" ∷ char "b" ∷ []

-- The slash comes before the home that it ends the name of.
expand_env_vars-render_example : expand_env_vars home "a${HH}$H/b" ≡ meaning home pieces
unfolding render name_char
expand_env_vars-render_example =
    expand_env_vars-render home pieces
      (refl, ((refl, (refl, tt)), ((refl, refl, tt, refl), (refl, tt))))

abbrev talk : Context
talk = record {
  fragments =
      record { channel = "system"; body = "be brief" }
      ∷ record { channel = "history"; body = "hello hello" }
      ∷ [];
}

compact-fits_example :
    (estimate_tokens (compact talk (record { max_tokens = 3 })) ≤ 3 + 1)
    ⊎ (compact talk (record { max_tokens = 3 }) ≡ essentials talk)
compact-fits_example = compact-fits talk (record { max_tokens = 3 })

abbrev io : Printing
io = record { from_str = λ s. none; to_string = λ v. "{}"; decimal = λ n. "1"; double = λ n. "1" }

abbrev call : Value
call = object (
    field "function" (object (field "name" (text "cap_echo") end)) (field "id" (text "call_1") end))

call_intent-target_example :
    target (call_intent io (tool_schema (echo ∷ [])).1 call)
    ≡ some (unwrap_or (last_named "cap_echo" (echo ∷ [])) "cap_echo")
call_intent-target_example = call_intent-target io (echo ∷ []) call "cap_echo" refl

abbrev fetch : Value
fetch = object (field "url" (text "http://example.com:8080/a") end)

abbrev fetched : ParsedUrl
fetched = record { host = "example.com"; port = 8080; path = "/a" }

allowed-connects_listed_example :
    (authority : String) × Names authority fetched
    × (host_allowed (("ci", "example.com:8080" ∷ []) ∷ []) ci authority ≡ true)
unfolding check_host strip_prefix parse_url host_allowed lookup host_matches extract_host
allowed-connects_listed_example =
    allowed-connects_listed (("ci", "example.com:8080" ∷ []) ∷ []) ci fetch "cap.http.get" fetched
      refl refl refl refl

-- A storage that prints every table as its first key, and writes it.
abbrev storage : Storage
storage = record {
  from_str = λ s. none;
  to_string_pretty = λ t. elim t [ [] ↦ ok "{}" | e ∷ es ↦ ok e.0 ];
  write = λ s file. (ok tt, some s);
}

abbrev set_key : String → Call
set_key k = ("cap.state.set", object (field "key" (text k) (field "value" (boolean true) end)))

abbrev set_a : Table Value
set_a = (begin_state (set_key "a").0 (set_key "a").1 []).1

abbrev set_both : Table Value
set_both = (begin_state (set_key "b").0 (set_key "b").1 set_a).1

-- Two calls change the table, and the later snapshot is written first.
abbrev older_last : Running
older_last = record { store = set_both; file = some "a"; unwritten = [] }
