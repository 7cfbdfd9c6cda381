-- ===== src/Pipeline/Check/Laws/Types.antt =====
-- The names that a schema may give as a `type`, and the values each of them stands for.
use pan.Prelude.{
  ℕ, ◌≡◌, refl, ◌↔◌, ◌⊎◌, inl, inr, Bool, true, false, String, arith, is_some, str_eq, eq_iff,
  Bool-cases,
}
use pan.Json
use pan.Json.{
  Value, null, boolean, number, text, array, object, Number, pos_int, neg_int, float, Items, Fields,
}
use pan.Pipeline.Check.{has_type}

str_eq-cases : (s t : String) → (s ≡ t) ⊎ (str_eq s t ≡ false)
str_eq-cases s t = elim (Bool-cases (str_eq s t)) [ inl y ↦ inl ((eq_iff s t).0 y) | inr n ↦ inr n ]

-- Where the name is one of JSON Schema's seven, the value is of that type. A negative whole number is an
-- integer too, and a double is none; any other name stands for all values.
pub record Typed (ty : String) (v : Value) : Type 0 where
  pub an_object : ty ≡ "object" → (obj : Fields) × (v ≡ object obj)
  pub an_array : ty ≡ "array" → (vs : Items) × (v ≡ array vs)
  pub a_string : ty ≡ "string" → (s : String) × (v ≡ text s)
  pub a_number : ty ≡ "number" → (n : Number) × (v ≡ number n)
  pub an_integer :
      ty ≡ "integer" → ((n : ℕ) × (v ≡ number (pos_int n))) ⊎ ((n : ℕ) × (v ≡ number (neg_int n)))
  pub a_boolean : ty ≡ "boolean" → (b : Bool) × (v ≡ boolean b)
  pub a_null : ty ≡ "null" → v ≡ null

as_object_iff : (v : Value) → (is_some (Json.as_object v) ≡ true) ↔ ((o : Fields) × (v ≡ object o))
as_object_iff (object o) = (λ h. (o, refl), λ h. refl)
as_object_iff _ = (λ h. absurd (ground arith), λ h. absurd (ground arith))

as_array_iff : (v : Value) → (is_some (Json.as_array v) ≡ true) ↔ ((o : Items) × (v ≡ array o))
as_array_iff (array o) = (λ h. (o, refl), λ h. refl)
as_array_iff _ = (λ h. absurd (ground arith), λ h. absurd (ground arith))

as_str_iff : (v : Value) → (is_some (Json.as_str v) ≡ true) ↔ ((s : String) × (v ≡ text s))
as_str_iff (text s) = (λ h. (s, refl), λ h. refl)
as_str_iff _ = (λ h. absurd (ground arith), λ h. absurd (ground arith))

as_bool_iff : (v : Value) → (is_some (Json.as_bool v) ≡ true) ↔ ((b : Bool) × (v ≡ boolean b))
as_bool_iff (boolean b) = (λ h. (b, refl), λ h. refl)
as_bool_iff _ = (λ h. absurd (ground arith), λ h. absurd (ground arith))

is_number_iff : (v : Value) → (Json.is_number v ≡ true) ↔ ((n : Number) × (v ≡ number n))
is_number_iff (number n) = (λ h. (n, refl), λ h. refl)
is_number_iff _ = (λ h. absurd (ground arith), λ h. absurd (ground arith))

abbrev Integral : Value → Type 0
Integral v = ((n : ℕ) × (v ≡ number (pos_int n))) ⊎ ((n : ℕ) × (v ≡ number (neg_int n)))

is_integer_iff : (v : Value) → (Json.is_integer v ≡ true) ↔ Integral v
is_integer_iff (number (pos_int n)) = (λ h. inl (n, refl), λ h. refl)
is_integer_iff (number (neg_int n)) = (λ h. inr (n, refl), λ h. refl)
is_integer_iff (number (float n)) = (λ h. absurd (ground arith), λ h. absurd (ground arith))
is_integer_iff _ = (λ h. absurd (ground arith), λ h. absurd (ground arith))

is_null_iff : (v : Value) → (Json.is_null v ≡ true) ↔ (v ≡ null)
is_null_iff null = (λ h. refl, λ h. refl)
is_null_iff _ = (λ h. absurd (ground arith), λ h. absurd (ground arith))

has_type-Typed : (ty : String) (v : Value) → has_type ty v ≡ true → Typed ty v
unfolding has_type
has_type-Typed ty v h = record {
  an_object = λ e. (as_object_iff v).0 (rw e at h);
  an_array = λ e. (as_array_iff v).0 (rw e at h);
  a_string = λ e. (as_str_iff v).0 (rw e at h);
  a_number = λ e. (is_number_iff v).0 (rw e at h);
  an_integer = λ e. (is_integer_iff v).0 (rw e at h);
  a_boolean = λ e. (as_bool_iff v).0 (rw e at h);
  a_null = λ e. (is_null_iff v).0 (rw e at h);
}

Typed-has_type : (ty : String) (v : Value) → Typed ty v → has_type ty v ≡ true
unfolding has_type
Typed-has_type ty v h = elim (str_eq-cases ty "object") [
  | inl e ↦ rw e ((as_object_iff v).1 (h.an_object e))
  | inr no_object ↦ elim (str_eq-cases ty "array") [
    | inl e ↦ rw e ((as_array_iff v).1 (h.an_array e))
    | inr no_array ↦ elim (str_eq-cases ty "string") [
      | inl e ↦ rw e ((as_str_iff v).1 (h.a_string e))
      | inr no_string ↦ elim (str_eq-cases ty "number") [
        | inl e ↦ rw e ((is_number_iff v).1 (h.a_number e))
        | inr no_number ↦ elim (str_eq-cases ty "integer") [
          | inl e ↦ rw e ((is_integer_iff v).1 (h.an_integer e))
          | inr no_integer ↦ elim (str_eq-cases ty "boolean") [
            | inl e ↦ rw e ((as_bool_iff v).1 (h.a_boolean e))
            | inr no_boolean ↦ elim (str_eq-cases ty "null") [
              | inl e ↦ rw e ((is_null_iff v).1 (h.a_null e))
              | inr no_null ↦
                  rw
                    (
                      has_type, no_object, no_array, no_string, no_number, no_integer, no_boolean,
                      no_null,
                    )
                    refl
            ]
          ]
        ]
      ]
    ]
  ]
]

pub has_type_iff : (ty : String) (v : Value) → (has_type ty v ≡ true) ↔ Typed ty v
has_type_iff ty v = (has_type-Typed ty v, Typed-has_type ty v)
