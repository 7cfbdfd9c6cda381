-- ===== src/Json/Build.antt =====
-- `serde_json::Map` as a `BTreeMap` of values, and the object that it makes.
use pan.Prelude.{◌≡◌, refl, String, [], ◌∷◌, arith}
use pan.Table.{Table, lookup}
use pan.Json.Data.{Value, object, Fields, end, field}
use pan.Json.Access.{fields_of}

unfoldable pub to_fields : Table Value → Fields
to_fields [] = end
to_fields ((k, v) ∷ rest) = field k v (to_fields rest)

-- `Value::Object(map)`
abbrev pub object_of : Table Value → Value
object_of m = object (to_fields m)

pub fields_of-to_fields : (m : Table Value) (k : String) → fields_of (to_fields m) k ≡ lookup k m
unfolding to_fields lookup
fields_of-to_fields [] k = refl
fields_of-to_fields ((j, v) ∷ rest) k = let behind = fields_of-to_fields rest k in ground arith
