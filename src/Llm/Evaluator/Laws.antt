-- ===== src/Llm/Evaluator/Laws.antt =====
-- What the evaluator never says.
use text.Mathlib.TextLemmas.{cons-append, nil-append, append_assoc}
use pan.Prelude.{
  ◌≡◌, refl, sym, ap, ◌∙◌, true, String, Result, ok, err, arith, ◌⧺◌, Option-cases, inl, inr,
  or_true, is_some, strip_prefix, strip_prefix-append, strip_prefix-append_self, trim,
}
use pan.Json.{Value}
use pan.Schema.{unsatisfied}
use pan.Agent.History.{contains_text}
use pan.Llm.Evaluator.{reply_of, judge_reply, judge_response}

found_first : (s p : String) → is_some (strip_prefix p s) ≡ true → contains_text s p ≡ true
unfolding contains_text
found_first String.[] p h = h
found_first (String.◌∷◌ c s) p h = rw h refl

contains_text-part : (a p b : String) → contains_text (a ⧺ (p ⧺ b)) p ≡ true
unfolding contains_text
contains_text-part String.[] p b =
    rw (nil-append (p ⧺ b)) (found_first (p ⧺ b) p (rw (strip_prefix-append_self p b) refl))
contains_text-part (String.◌∷◌ c a) p b =
    rw (cons-append c a (p ⧺ b), contains_text, contains_text-part a p b) (or_true _)

contains_text-found :
    (s p : String) → contains_text s p ≡ true → (a : String) × (b : String) × (s ≡ a ⧺ (p ⧺ b))
unfolding contains_text
contains_text-found String.[] p h = elim (Option-cases (strip_prefix p String.[])) [
  | inl e ↦ absurd (ground arith)
  | inr (r, e) ↦ ("", r, strip_prefix-append p String.[] r e ∙ sym (nil-append (p ⧺ r)))
]
contains_text-found (String.◌∷◌ c s) p h = elim (Option-cases (strip_prefix p (String.◌∷◌ c s))) [
  | inl e ↦
      let (a, b, f) = contains_text-found s p (ground arith) in
      (String.◌∷◌ c a, b, ap (String.◌∷◌ c) f ∙ sym (cons-append c a (p ⧺ b)))
  | inr (r, e) ↦ ("", r, strip_prefix-append p (String.◌∷◌ c s) r e ∙ sym (nil-append (p ⧺ r)))
]

contains-un :
    (s : String) → contains_text s "unsatisfied" ≡ true → contains_text s "satisfied" ≡ true
contains-un s h =
    let (a, b, e) = contains_text-found s "unsatisfied" h in
    let inner : "unsatisfied" ⧺ b ≡ "un" ⧺ ("satisfied" ⧺ b) = append_assoc "un" "satisfied" b in
    rw (e ∙ ap (λ r. a ⧺ r) inner ∙ sym (append_assoc a "un" ("satisfied" ⧺ b)))
      (contains_text-part (a ⧺ "un") "satisfied" b)

-- Whatever the server answers, and whatever lower case is, no goal is found unsatisfied.
pub judge_response-never_unsatisfied :
    (to_lowercase : String → String) (response : Result String Value) (reason : String)
    → judge_response to_lowercase response ≡ unsatisfied reason
    → ⊥
unfolding judge_response judge_reply
judge_response-never_unsatisfied to_lowercase (err e) reason h = ground arith
judge_response-never_unsatisfied to_lowercase (ok body) reason h =
    let reply = to_lowercase (trim (reply_of body)) in let un = contains-un reply in ground arith
