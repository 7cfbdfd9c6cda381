-- ===== src/Json/Data.antt =====
-- The JSON value: what pan-core/src/schema.rs calls `Value`.
use pan.Prelude.{ℕ, Bool, String}

-- A number is a `u64`, a negative `i64` (`neg_int n` is -(n + 1)), or a double by its bit pattern.
pub data Number : Type 0 where
  pos_int neg_int float : ℕ → Number

mutual
  pub data Value : Type 0 where
    null : Value
    boolean : Bool → Value
    number : Number → Value
    text : String → Value
    array : Items → Value
    object : Fields → Value

  pub data Fields : Type 0 where
    end : Fields
    field : String → Value → Fields → Fields

  pub data Items : Type 0 where
    nil : Items
    cons : Value → Items → Items
