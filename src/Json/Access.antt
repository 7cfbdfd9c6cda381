-- ===== src/Json/Access.antt =====
-- The accessors of a JSON value that the crates call, and `json_type_name` of
-- pan-core/src/pipeline.rs.
use pan.Prelude.{
  ℕ, Bool, true, false, String, List, [], ◌∷◌, Option, none, some, str_eq, if◌then◌else◌,
}
use pan.Json.Data.{
  pos_int, neg_int, Value, null, boolean, number, text, array, object, Items, nil, cons, Fields,
  end, field,
}

-- `Map::get`
abbrev pub fields_of : Fields → String → Option Value
fields_of end k = none
fields_of (field j v fs) k = if str_eq j k then some v else fields_of fs k

-- `Value::get`: a field of an object, and nothing of any other value.
abbrev pub get : Value → String → Option Value
get (object fs) k = fields_of fs k
get _ k = none

abbrev pub contains_key : Fields → String → Bool
contains_key end k = false
contains_key (field j v fs) k = if str_eq j k then true else contains_key fs k

abbrev pub elements : Items → List Value
elements nil = []
elements (cons v vs) = v ∷ elements vs

abbrev pub as_object : Value → Option Fields
as_object (object fs) = some fs
as_object _ = none

abbrev pub as_array : Value → Option (List Value)
as_array (array vs) = some (elements vs)
as_array _ = none

abbrev pub as_str : Value → Option String
as_str (text s) = some s
as_str _ = none

abbrev pub as_bool : Value → Option Bool
as_bool (boolean b) = some b
as_bool _ = none

abbrev pub as_u64 : Value → Option ℕ
as_u64 (number (pos_int n)) = some n
as_u64 _ = none

-- `is_i64() || is_u64()`
abbrev pub is_integer : Value → Bool
is_integer (number (pos_int n)) = true
is_integer (number (neg_int n)) = true
is_integer _ = false

abbrev pub is_number : Value → Bool
is_number (number n) = true
is_number _ = false

abbrev pub is_null : Value → Bool
is_null null = true
is_null _ = false

unfoldable pub json_type_name : Value → String
json_type_name null = "null"
json_type_name (boolean _) = "boolean"
json_type_name (number _) = "number"
json_type_name (text _) = "string"
json_type_name (array _) = "array"
json_type_name (object _) = "object"
