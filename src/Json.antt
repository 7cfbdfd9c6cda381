-- ===== src/Json.antt =====
-- The JSON values that the crates exchange (`pan_core::schema::Value`, an alias of
-- `serde_json::Value`), with the constructors that `json_type_name` of pan-core/src/pipeline.rs
-- matches. The accessors test the constructor. An object is the list of its fields in key order.
-- Printing a value to text is not the repository's code and is a parameter where it is used.
mod Access
pub use Access.{
  fields_of, get, contains_key, elements, as_object, as_array, as_str, as_bool, as_u64, is_integer,
  is_number, is_null,
}
unfoldable pub use Access.{json_type_name}
mod Data
pub use Data.{
  Number, pos_int, neg_int, float, Value, null, boolean, number, text, array, object, Items, nil,
  cons, Fields, end, field,
}
pub mod Build
