-- ===== src/Pipeline/Check/Laws.antt =====
-- What `validate` asks of the arguments, said by what the values of each JSON type are.
mod Types
use pan.Prelude.{
  ◌≡◌, refl, sym, ap, ◌∙◌, ◌↔◌, true, false, String, List, [], ◌∷◌, Option, none, some, arith, ok,
  bind, str_eq, Bool-cases, Option-cases, Result-cases, inl, inr, All,
}
use pan.Json
use pan.Json.{Value, text, array, object, Fields, elements}
use pan.Pipeline.Check.{
  has_type, check_type, has_key, check_required, required_of, minimal_schema_check,
}
use pan.Pipeline.Check.Laws.Types.{Typed, has_type_iff}

-- The arguments are an object with a value at that key.
abbrev pub Holds : Value → String → Type 0
Holds args key =
    (obj : Fields) × (v : Value) × (args ≡ object obj) × (Json.fields_of obj key ≡ some v)

abbrev pub HasKeys : Value → List Value → Type 0
HasKeys args = All λ k. (key : String) → k ≡ text key → Holds args key

-- Where the schema has a text for `type`, the arguments are of that type; where it has an array for
-- `required`, each text in it is a key of the arguments. A schema that is no object asks nothing.
abbrev pub Fits : Value → Value → Type 0
Fits (object obj) args =
    ((ty : String) → Json.fields_of obj "type" ≡ some (text ty) → Typed ty args)
    × ((ks : Json.Items)
        → Json.fields_of obj "required" ≡ some (array ks)
        → HasKeys args (elements ks))
Fits _ args = Unit

text_injective : {s t : String} → text s ≡ text t → s ≡ t
text_injective h = ground arith

some_text : {s t : String} → ◌≡◌ {A = Option Value} (some (text s)) (some (text t)) → s ≡ t
some_text h = ground arith

some_array : {s t : Json.Items} → ◌≡◌ {A = Option Value} (some (array s)) (some (array t)) → s ≡ t
some_array h = ground arith

as_str-some : (v : Value) (s : String) → Json.as_str v ≡ some s → v ≡ text s
as_str-some (text s) t h = ground arith
as_str-some _ t h = absurd (ground arith)

contains_key_iff :
    (obj : Fields) (key : String)
    → (Json.contains_key obj key ≡ true) ↔ ((v : Value) × (Json.fields_of obj key ≡ some v))
contains_key_iff Json.end key = (λ h. absurd (ground arith), λ h. absurd (ground arith))
contains_key_iff (Json.field j v fs) key = elim (Bool-cases (str_eq j key)) [
  | inl y ↦ rw y ((λ h. (v, refl)), (λ h. refl))
  | inr n ↦ rw n (contains_key_iff fs key)
]

has_key_iff : (args : Value) (key : String) → (has_key args key ≡ true) ↔ Holds args key
has_key_iff (object obj) key =
    let (to, from) = contains_key_iff obj key in
    (
      (λ h. let (v, e) = to h in (obj, v, refl, e)),
      (λ (o, v, same, e). from (v, ap (λ x. Json.get x key) same ∙ e)),
    )
has_key_iff _ key = ((λ h. absurd (ground arith)), (λ (o, v, same, e). absurd (ground arith)))

check_required_iff :
    (ks : List Value) (args : Value) → (check_required ks args ≡ ok tt) ↔ HasKeys args ks
unfolding check_required
check_required_iff [] args = (λ h. tt, λ h. refl)
check_required_iff (k ∷ ks) args =
    let (to, from) = check_required_iff ks args in
    elim (Option-cases (Json.as_str k)) [
      | inl e ↦ (
        (λ h. ((λ key q. ground arith), to (ground arith))),
        (λ h. let x = from h.1 in ground arith),
      )
      | inr (key, e) ↦
          let named = as_str-some k key e in
          let (held, holds) = has_key_iff args key in
          elim (Bool-cases (has_key args key)) [
            | inl y ↦ (
              (λ h. ((λ q f. rw (text_injective (sym named ∙ f)) at (held y)), to (ground arith))),
              (λ h. let x = from h.1 in ground arith),
            )
            | inr n ↦ ((λ h. ground arith), (λ h. let bad = holds (h.0 key named) in ground arith))
          ]
    ]

check_type_iff :
    (ty : Option Value) (args : Value)
    → (check_type (bind ty Json.as_str) args ≡ ok tt)
      ↔ ((t : String) → ty ≡ some (text t) → Typed t args)
unfolding check_type
check_type_iff none args = ((λ h t q. ground arith), (λ h. refl))
check_type_iff (some (text ty)) args =
    let (to, from) = has_type_iff ty args in
    elim (Bool-cases (has_type ty args)) [
      | inl y ↦ rw y ((λ h t q. rw (some_text q) at (to y)), (λ h. refl))
      | inr n ↦
          rw n ((λ h t q. absurd (ground arith)), (λ h. let bad = from (h ty refl) in ground arith))
    ]
check_type_iff (some _) args = ((λ h t q. ground arith), (λ h. refl))

required_iff :
    (required : Option Value) (args : Value)
    → HasKeys args (elim (bind required Json.as_array) [ none ↦ [] | some ks ↦ ks ])
      ↔ ((ks : Json.Items) → required ≡ some (array ks) → HasKeys args (elements ks))
required_iff none args = ((λ h t q. absurd (ground arith)), (λ h. tt))
required_iff (some (array ks)) args = (λ h js q. rw (some_array q) at h, λ h. h ks refl)
required_iff (some _) args = ((λ h t q. absurd (ground arith)), (λ h. tt))

-- `minimal_schema_check` accepts exactly the arguments that fit the schema: those of the JSON type it
-- names, if it names one, with a value at each key it requires.
pub minimal_schema_check_iff :
    (schema args : Value) → (minimal_schema_check schema args ≡ ok tt) ↔ Fits schema args
unfolding minimal_schema_check
minimal_schema_check_iff (object obj) args =
    let (t, t') = check_type_iff (Json.fields_of obj "type") args in
    let (q, q') = required_iff (Json.fields_of obj "required") args in
    let (r, r') = check_required_iff (required_of obj) args in
    elim (Result-cases (check_type (bind (Json.fields_of obj "type") Json.as_str) args)) [
      | inl (_, e) ↦ rw e ((λ h. (t e, q (r h))), (λ h. r' (q' h.1)))
      | inr (m, e) ↦ ((λ h. ground arith), (λ h. let good = t' h.0 in ground arith))
    ]
minimal_schema_check_iff schema args = ((λ h. tt), (λ h. refl))
