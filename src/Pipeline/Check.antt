-- ===== src/Pipeline/Check.antt =====
-- pan-core/src/pipeline.rs: `minimal_schema_check`, the test of the `validate` stage.
pub mod Laws
use pan.Prelude.{
  Bool, true, false, String, List, [], ◌∷◌, Option, none, some, Result, ok, err, and_then, bind,
  is_some, str_eq, if◌then◌else◌, ◌⧺◌,
}
use pan.Json
use pan.Json.{Value, Fields, json_type_name}

-- Whether the value has the JSON type of that name; an unknown name is not checked.
unfoldable pub has_type : String → Value → Bool
has_type ty args =
    if str_eq ty "object"
    then is_some (Json.as_object args)
    else if str_eq ty "array"
    then is_some (Json.as_array args)
    else if str_eq ty "string"
    then is_some (Json.as_str args)
    else if str_eq ty "number"
    then Json.is_number args
    else if str_eq ty "integer"
    then Json.is_integer args
    else if str_eq ty "boolean"
    then is_some (Json.as_bool args)
    else if str_eq ty "null"
    then Json.is_null args
    else true

unfoldable pub check_type : Option String → Value → Result String (Unit {0})
check_type none args = ok tt
check_type (some ty) args =
    if has_type ty args
    then ok tt
    else err ("expected JSON type `" ⧺ ty ⧺ "`, got `" ⧺ json_type_name args ⧺ "`")

-- `argobj.map(|o| o.contains_key(key)).unwrap_or(false)`
abbrev pub has_key : Value → String → Bool
has_key args key = elim (Json.as_object args) [ none ↦ false | some o ↦ Json.contains_key o key ]

-- The loop over the `required` list; elements that are no strings are skipped.
unfoldable pub check_required : List Value → Value → Result String (Unit {0})
check_required [] args = ok tt
check_required (k ∷ ks) args =
    let rest = check_required ks args in
    elim (Json.as_str k) [
      | none ↦ rest
      | some key ↦ if has_key args key then rest else err ("missing required arg `" ⧺ key ⧺ "`")
    ]

abbrev pub required_of : Fields → List Value
required_of obj = elim (bind (Json.fields_of obj "required") Json.as_array) [
  | none ↦ []
  | some ks ↦ ks
]

unfoldable pub minimal_schema_check : Value → Value → Result String (Unit {0})
minimal_schema_check schema args = elim (Json.as_object schema) [
  | none ↦ ok tt
  | some obj ↦
      and_then (check_type (bind (Json.fields_of obj "type") Json.as_str) args)
        λ _. check_required (required_of obj) args
]
