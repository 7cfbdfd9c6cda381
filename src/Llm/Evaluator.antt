-- ===== src/Llm/Evaluator.antt =====
-- pan-llm/src/evaluator.rs: `LlmEvaluator`, from the answer of the server on. The request is input and
-- output; `to_lowercase` is the standard library's, of Unicode's tables.
pub mod Laws
use pan.Prelude.{
  String, List, [], ◌∷◌, Option, none, some, Result, ok, err, bind, unwrap_or, trim, get_elem?,
  if◌then◌else◌, ◌⧺◌,
}
use pan.Json.{Value, get, as_array, as_str}
use pan.Schema.{GoalEval, satisfied, unsatisfied, cannot_judge}
use pan.Agent.Session.{lines}
use pan.Agent.History.{contains_text}

unfoldable pub reply_of : Value → String
reply_of body =
    unwrap_or
      (bind (bind (get body "choices") as_array) λ choices.
        bind (get_elem? choices 0) λ c. bind (get c "message") λ m. bind (get m "content") as_str)
      ""

unfoldable pub judge_reply : String → GoalEval
unfolding contains_text lines
judge_reply reply =
    if contains_text reply "satisfied"
    then satisfied
    else if contains_text reply "unsatisfied"
    then unsatisfied (unwrap_or (get_elem? (lines reply) 1) "no reason given")
    else cannot_judge ("unexpected response: " ⧺ reply)

unfoldable pub judge_response : (String → String) → Result String Value → GoalEval
unfolding reply_of trim judge_reply
judge_response to_lowercase (ok body) = judge_reply (to_lowercase (trim (reply_of body)))
judge_response to_lowercase (err e) = cannot_judge ("evaluator request failed: " ⧺ e)
