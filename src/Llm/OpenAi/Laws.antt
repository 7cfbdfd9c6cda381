-- ===== src/Llm/OpenAi/Laws.antt =====
-- Which capability a reply of the model invokes, and when a reply concludes.
use pan.Prelude.{
  ◌≡◌, refl, ap, ◌∙◌, true, false, Bool, String, List, [], ◌∷◌, ◌++◌, Option, none, some, bind,
  unwrap_or, str_eq, if◌then◌else◌, Option-cases, inl, inr, is_some,
}
use pan.Json.{Value, get, as_array, as_str}
use pan.Schema.{
  Capability, ActionIntent, invoke, express, conclude, Decision, achieved, abandoned, outcome,
  last_outcome,
}
use pan.Table.{Table, lookup, insert, lookup-insert}
use pan.Agent.Merge.Laws.{or_else, or_else-none}
use pan.Llm.OpenAi.{
  Printing, sanitize, names_of, tool_schema, index_key, index_at, call_intent, call_intents,
  content_of, spoken, interpret_message, interpret, given_up,
}

-- The last capability whose tool has the name.
unfoldable pub last_named : String → List Capability → Option String
unfolding sanitize
last_named name [] = none
last_named name (c ∷ cs) =
    or_else (last_named name cs) (if str_eq (sanitize c.id) name then some c.id else none)

or_else-if :
    (o : Option String) (b : Bool) (x : String) (p : Option String)
    → or_else o (if b then some x else p) ≡ or_else (or_else o (if b then some x else none)) p
or_else-if (some a) b x p = refl
or_else-if none true x p = refl
or_else-if none false x p = refl

lookup-names_of :
    (caps : List Capability) (m : Table String) (name : String)
    → lookup name (names_of caps m) ≡ or_else (last_named name caps) (lookup name m)
unfolding names_of last_named
lookup-names_of [] m name = refl
lookup-names_of (c ∷ cs) m name =
    lookup-names_of cs (insert (sanitize c.id) c.id m) name
    ∙ ap (or_else (last_named name cs)) (lookup-insert (sanitize c.id) name c.id m)
    ∙ or_else-if (last_named name cs) (str_eq (sanitize c.id) name) c.id (lookup name m)

-- The capability that an intent invokes.
unfoldable pub target : ActionIntent → Option String
target (invoke capability args correlation) = some capability
target (express body) = none
target (conclude o) = none

module _ (io : Printing) where
  -- A call of a tool by its name invokes the last of the capabilities whose ids, with dots replaced,
  -- are that name; where there is none, the name itself is invoked as it was sent.
  pub call_intent-target :
      (caps : List Capability) (call : Value) (name : String)
      → bind (get (index_key call "function") "name") as_str ≡ some name
      → target (call_intent io (tool_schema caps).1 call)
        ≡ some (unwrap_or (last_named name caps) name)
  unfolding call_intent target tool_schema
  call_intent-target caps call name h = rw h (
      ap (λ o. some (unwrap_or o name))
        (lookup-names_of caps [] name ∙ or_else-none (last_named name caps)))

  last_outcome-calls :
      (m : Table String) (calls : List Value) → last_outcome (call_intents io m calls) ≡ none
  unfolding call_intents call_intent last_outcome
  last_outcome-calls m [] = refl
  last_outcome-calls m (call ∷ calls) = last_outcome-calls m calls

  last_outcome-spoken :
      (o : Option String) (is : List ActionIntent)
      → last_outcome (spoken io o ++ is) ≡ last_outcome is
  unfolding last_outcome
  last_outcome-spoken none is = refl
  last_outcome-spoken (some s) is = refl

  -- The calls of a reply.
  abbrev pub calls_of : Value → List Value
  calls_of response =
      unwrap_or
        (bind (get (index_key (index_at (index_key response "choices") 0) "message") "tool_calls")
          as_array)
        []

  of_message :
      (message : Value) (m : Table String)
      → last_outcome (interpret_message io message m).intents
        ≡ (elim (unwrap_or (bind (get message "tool_calls") as_array) []) [
          | [] ↦ some achieved
          | _ ↦ none
        ])
  unfolding interpret_message last_outcome
  of_message message m = of_calls (bind (get message "tool_calls") as_array)
    where
      of_calls :
          (calls : Option (List Value))
          → last_outcome
              (elim calls as (λ c. Decision) [
                | none ↦ record {
                  intents = spoken io (content_of io message) ++ conclude achieved ∷ [];
                }
                | some [] ↦ record {
                  intents = spoken io (content_of io message) ++ conclude achieved ∷ [];
                }
                | some (call ∷ rest) ↦ record {
                  intents = spoken io (content_of io message) ++ call_intents io m (call ∷ rest);
                }
              ]).intents
            ≡ (elim (unwrap_or calls []) [ [] ↦ some achieved | _ ↦ none ])
      of_calls none = last_outcome-spoken (content_of io message) (conclude achieved ∷ [])
      of_calls (some []) = last_outcome-spoken (content_of io message) (conclude achieved ∷ [])
      of_calls (some (call ∷ rest)) =
          last_outcome-spoken (content_of io message) (call_intents io m (call ∷ rest))
          ∙ last_outcome-calls m (call ∷ rest)

  -- A reply with an error abandons the goal; one with tool calls leaves it open; any other achieves it.
  pub outcome-interpret :
      (response : Value) (m : Table String)
      → outcome (interpret io response m) ≡ (
          if is_some (get response "error")
          then some abandoned
          else elim (calls_of response) [ [] ↦ some achieved | _ ↦ none ])
  unfolding outcome interpret interpret_message given_up last_outcome
  outcome-interpret response m = elim (Option-cases (get response "error")) [
    | inr (e, h) ↦ rw (h, interpret) refl
    | inl h ↦
        rw (h, interpret)
          (of_message (index_key (index_at (index_key response "choices") 0) "message") m)
  ]
