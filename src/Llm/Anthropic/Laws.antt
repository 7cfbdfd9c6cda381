-- ===== src/Llm/Anthropic/Laws.antt =====
-- What a reply of the model comes to: its texts, its uses of tools, and whether it concludes.
use mathlib.Core.List.{append_assoc, append-nil}
use text.Mathlib.TextLemmas.{
  append-nil as String_append-nil, append_assoc as String_append_assoc, cons-append,
}
use pan.Prelude.{
  ◌≡◌, refl, sym, ap, subst, ◌∙◌, true, false, String, List, [], ◌∷◌, ◌++◌, map, Option, none, some,
  bind, retain, any, trim, str_eq, if◌then◌else◌, ◌⧺◌, Bool-cases, Option-cases, inl, inr, eq_iff,
}
use pan.Json.{Value, get, as_array, as_str}
use pan.Schema.{ActionIntent, express, conclude, achieved}
use pan.Table.{Table}
use pan.Llm.Anthropic.{is_type, text_of, said, use_of, read_blocks, interpret_content, interpret}

-- The texts of the text blocks that have one.
unfoldable pub texts_of : List Value → List String
texts_of [] = []
texts_of (b ∷ bs) =
    let rest = texts_of bs in
    if is_type "text" b then (elim (text_of b) [ some s ↦ s ∷ rest | none ↦ rest ]) else rest

-- The texts behind the first one, a space before each.
unfoldable pub behind : List String → String
behind [] = ""
behind (s ∷ ss) = " " ⧺ (s ⧺ behind ss)

unfoldable pub sentence : List String → List ActionIntent
unfolding behind
sentence [] = []
sentence (s ∷ ss) = express (s ⧺ behind ss) ∷ []

-- The blocks that use a tool.
abbrev pub uses : List Value → List Value
uses bs = retain (is_type "tool_use") bs

exclusive : (b : Value) → is_type "text" b ≡ true → is_type "tool_use" b ≡ false
exclusive b h = elim (Option-cases (bind (get b "type") as_str)) [
  | inl n ↦ rw (is_type, n) refl
  | inr (t, e) ↦
      let same : t ≡ "text" = (eq_iff t "text").0 (rw (is_type, e) at h) in
      rw (is_type, e, same) refl
]

read_blocks-uses :
    (m : Table String) (bs : List Value) (e : Option String) (inv : List ActionIntent)
    → (read_blocks m bs e inv).1 ≡ inv ++ map (use_of m) (uses bs)
unfolding read_blocks
read_blocks-uses m [] e inv = sym (append-nil inv)
read_blocks-uses m (b ∷ bs) e inv = elim (Bool-cases (is_type "text" b)) [
  | inl t ↦ rw (read_blocks, t, exclusive b t) (read_blocks-uses m bs (said e (text_of b)) inv)
  | inr o ↦ elim (Bool-cases (is_type "tool_use" b)) [
    | inl u ↦
        rw (read_blocks, o, u)
          (read_blocks-uses m bs e (inv ++ use_of m b ∷ [])
            ∙ append_assoc inv (use_of m b ∷ []) (map (use_of m) (uses bs)))
    | inr n ↦ rw (read_blocks, o, n) (read_blocks-uses m bs e inv)
  ]
]

-- What is said so far, with the texts behind it.
abbrev with_texts : Option String → List String → Option String
with_texts none [] = none
with_texts none (s ∷ ss) = some (s ⧺ behind ss)
with_texts (some p) ss = some (p ⧺ behind ss)

abbrev IsSaid : Option String → Type 0
IsSaid none = Unit {0}
IsSaid (some p) = str_eq p "" ≡ false

text_of-IsSaid : (b : Value) (s : String) → text_of b ≡ some s → str_eq s "" ≡ false
unfolding text_of
text_of-IsSaid b s h = elim (Option-cases (bind (get b "text") as_str)) [
  | inl n ↦ absurd (let stuck : none ≡ some s = rw (text_of, n) at h in cc)
  | inr (x, e) ↦ elim (Bool-cases (str_eq (trim x) "")) [
    | inl blank ↦ absurd (let stuck : none ≡ some s = rw (text_of, e, blank) at h in cc)
    | inr full ↦
        let same : some (trim x) ≡ some s = rw (text_of, e, full) at h in
        let eq : trim x ≡ s = cc in ap (λ y. str_eq y "") (sym eq) ∙ full
  ]
]

append-IsSaid : (p q : String) → str_eq p "" ≡ false → str_eq (p ⧺ q) "" ≡ false
append-IsSaid String.[] q h = absurd (cc)
append-IsSaid (String.◌∷◌ c p) q h = elim (Bool-cases (str_eq (String.◌∷◌ c p ⧺ q) "")) [
  | inr full ↦ full
  | inl blank ↦
      let same = sym (cons-append c p q) ∙ (eq_iff (String.◌∷◌ c p ⧺ q) "").0 blank in absurd (cc)
]

-- A text in front, where there is one.
abbrev onto : Option String → List String → List String
onto (some s) ss = s ∷ ss
onto none ss = ss

with_texts-said :
    (e o : Option String) (ss : List String)
    → IsSaid e
    → with_texts (said e o) ss ≡ with_texts e (onto o ss)
unfolding said behind
with_texts-said e none ss h = refl
with_texts-said none (some s) ss h = refl
with_texts-said (some p) (some s) ss h =
    rw (said, h)
      (ap some (
        String_append_assoc p (" " ⧺ s) (behind ss)
        ∙ ap (λ r. p ⧺ r) (String_append_assoc " " s (behind ss))))

said-some-IsSaid :
    (e : Option String) (s : String) → str_eq s "" ≡ false → IsSaid e → IsSaid (said e (some s))
unfolding said
said-some-IsSaid none s full h = full
said-some-IsSaid (some p) s full h = rw (said, h) (append-IsSaid p (" " ⧺ s) h)

said-IsSaid : (e : Option String) (b : Value) → IsSaid e → IsSaid (said e (text_of b))
unfolding said
said-IsSaid e b h = elim (Option-cases (text_of b)) [
  | inl n ↦ subst (λ o. IsSaid (said e o)) (sym n) h
  | inr (s, t) ↦
      subst (λ o. IsSaid (said e o)) (sym t) (said-some-IsSaid e s (text_of-IsSaid b s t) h)
]

texts_of-text :
    (b : Value) (bs : List Value)
    → is_type "text" b ≡ true
    → texts_of (b ∷ bs) ≡ onto (text_of b) (texts_of bs)
unfolding texts_of
texts_of-text b bs t = elim (Option-cases (text_of b)) [
  | inl n ↦ rw (texts_of, t, n) refl
  | inr (s, e) ↦ rw (texts_of, t, e) refl
]

read_blocks-texts :
    (m : Table String) (bs : List Value) (e : Option String) (inv : List ActionIntent)
    → IsSaid e
    → (read_blocks m bs e inv).0 ≡ with_texts e (texts_of bs)
unfolding read_blocks texts_of behind
read_blocks-texts m [] none inv h = refl
read_blocks-texts m [] (some p) inv h = ap some (sym (String_append-nil p))
read_blocks-texts m (b ∷ bs) e inv h = elim (Bool-cases (is_type "text" b)) [
  | inr o ↦ rw (read_blocks, texts_of, o) (read_blocks-texts m bs e _ h)
  | inl t ↦
      let later = read_blocks-texts m bs (said e (text_of b)) inv (said-IsSaid e b h) in
      let more = with_texts-said e (text_of b) (texts_of bs) h in
      let first = texts_of-text b bs t in
      let step : (read_blocks m (b ∷ bs) e inv).0 ≡ (read_blocks m bs (said e (text_of b)) inv).0 =
        rw (read_blocks, t) refl in
      step ∙ later ∙ more ∙ ap (with_texts e) (sym first)
]

with_texts-sentence :
    (ss : List String)
    → elim (with_texts none ss) as (λ _. List ActionIntent) [ some t ↦ express t ∷ [] | none ↦ [] ]
      ≡ sentence ss
unfolding sentence
with_texts-sentence [] = refl
with_texts-sentence (s ∷ ss) = refl

-- A reply without an error is made, block by block, into one utterance of all its texts with spaces
-- between them, then the uses of tools in their order, and it concludes exactly where it uses no tool.
pub interpret-blocks :
    (response : Value) (m : Table String) (content : List Value)
    → get response "error" ≡ none
    → bind (get response "content") as_array ≡ some content
    → (interpret response m).intents
      ≡ sentence (texts_of content)
        ++ (map (use_of m) (uses content)
            ++ (if any (is_type "tool_use") content then [] else conclude achieved ∷ []))
unfolding interpret interpret_content
interpret-blocks response m content e c =
    rw
      (
        interpret,
        e,
        c,
        interpret_content,
        read_blocks-texts m content none [] tt,
        read_blocks-uses m content none [],
      )
      (ap
        (λ (l : List ActionIntent).
          l
          ++ (map (use_of m) (uses content)
              ++ (if any (is_type "tool_use") content then [] else conclude achieved ∷ [])))
        (with_texts-sentence (texts_of content)))
