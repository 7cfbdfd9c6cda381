-- ===== src/Daemon/Wire/Codec.antt =====
-- pan-daemon/src/wire.rs: envelopes as the fields of a JSON object, in the order of the text. What
-- serde derives for the bodies, numbers and message types is a parameter, and so is the text itself.
pub mod RoundTrip
use pan.Prelude.{
  ℕ, Bool, true, false, ◌||◌, String, List, Option, none, some, Result, ok, err, and_then, map_ok,
  map_err, str_eq, if◌then◌else◌, ◌⧺◌, unwrap_or,
}
use pan.Json.{Value, number, pos_int, text, Fields, end, field}
use pan.Schema.{Capability}
use pan.Daemon.Wire.{
  MessageType, hello, welcome, register_capabilities, instantiate_soul, release_soul, perceive,
  decision, ack, error, shutdown, type_text, Body, hello_body, welcome_body, register_body,
  instantiate_body, release_body, perceive_body, decision_body, ack_body, error_body, shutdown_body,
  HelloBody, WelcomeBody, InstantiateSoulBody, PerceiveBody, DecisionBody, ErrorBody, Envelope,
}

-- `Serialize` and `Deserialize` of one type.
pub record Format (A : Type 0) : Type 0 where
  pub to : A → Value
  pub of : Value → Result String A

-- What the derived instances and serde's own give the envelope.
pub record Serde : Type 0 where
  pub u32_of : Value → Result String ℕ
  pub u64_of : Value → Result String ℕ
  pub option_of : Value → Result String (Option ℕ)
  pub type_of : Value → Result String MessageType
  pub missing_field : String → String
  pub hello_format : Format HelloBody
  pub welcome_format : Format WelcomeBody
  pub register_format : Format (List Capability)
  pub instantiate_format : Format InstantiateSoulBody
  pub release_format : Format String
  pub perceive_format : Format PerceiveBody
  pub decision_format : Format DecisionBody
  pub ack_format : Format (Unit {0})
  pub error_format : Format ErrorBody
  pub shutdown_format : Format (Unit {0})

abbrev pub labelled : {A : Type 0} → String → (A → Body) → Result String A → Result String Body
labelled label wrap r = map_err (λ e. label ⧺ " body: " ⧺ e) (map_ok wrap r)

module _ (c : Serde) where
  -- `impl Serialize for Body`
  unfoldable pub body_value : Body → Value
  body_value (hello_body b) = c.hello_format.to b
  body_value (welcome_body b) = c.welcome_format.to b
  body_value (register_body b) = c.register_format.to b
  body_value (instantiate_body b) = c.instantiate_format.to b
  body_value (release_body b) = c.release_format.to b
  body_value (perceive_body b) = c.perceive_format.to b
  body_value (decision_body b) = c.decision_format.to b
  body_value ack_body = c.ack_format.to tt
  body_value (error_body b) = c.error_format.to b
  body_value shutdown_body = c.shutdown_format.to tt

  -- `Body::from_value`
  unfoldable pub from_value : MessageType → Value → Result String Body
  from_value hello v = labelled "hello" hello_body (c.hello_format.of v)
  from_value welcome v = labelled "welcome" welcome_body (c.welcome_format.of v)
  from_value register_capabilities v =
      labelled "register_capabilities" register_body (c.register_format.of v)
  from_value instantiate_soul v =
      labelled "instantiate_soul" instantiate_body (c.instantiate_format.of v)
  from_value release_soul v = labelled "release_soul" release_body (c.release_format.of v)
  from_value perceive v = labelled "perceive" perceive_body (c.perceive_format.of v)
  from_value decision v = labelled "decision" decision_body (c.decision_format.of v)
  from_value ack v = labelled "ack" (λ u. ack_body) (c.ack_format.of v)
  from_value error v = labelled "error" error_body (c.error_format.of v)
  from_value shutdown v = labelled "shutdown" (λ u. shutdown_body) (c.shutdown_format.of v)

  -- `impl Serialize for Envelope`
  unfoldable pub serialize : Envelope → Fields
  unfolding body_value type_text
  serialize e =
      let tail = field "type" (text (type_text e.ty)) (field "body" (body_value e.body) end) in
      field "v" (number (pos_int e.v)) (
        field "seq" (number (pos_int e.seq))
          (elim e.re [ some re ↦ field "re" (number (pos_int re)) tail | none ↦ tail ]))

-- `Fields` of the visitor: what has been read.
pub record Partial : Type 0 where
  pub v : Option ℕ
  pub seq : Option ℕ
  pub re : Option (Option ℕ)
  pub ty : Option MessageType
  pub body : Option Value

abbrev pub nothing_read : Partial
nothing_read = record { v = none; seq = none; re = none; ty = none; body = none }

abbrev pub required : {A : Type 0} → String → Option A → Result String A
required message none = err message
required message (some a) = ok a

module _ (c : Serde) where
  -- One key of the loop of `visit_map`.
  unfoldable pub read_key : String → Value → Partial → Result String Partial
  read_key k x f =
      if str_eq k "v"
      then map_ok (λ n. record f { v = some n }) (c.u32_of x)
      else if str_eq k "seq"
      then map_ok (λ n. record f { seq = some n }) (c.u64_of x)
      else if str_eq k "re"
      then map_ok (λ r. record f { re = some r }) (c.option_of x)
      else if str_eq k "type"
      then map_ok (λ t. record f { ty = some t }) (c.type_of x)
      else if str_eq k "body"
      then ok (record f { body = some x })
      else ok f

  unfoldable pub visit : Fields → Partial → Result String Partial
  unfolding read_key
  visit end f = ok f
  visit (field k x rest) f = and_then (read_key k x f) (visit rest)

  unfoldable pub complete : Partial → Result String Envelope
  unfolding from_value
  complete f = and_then (required (c.missing_field "v") f.v) λ v.
      and_then (required (c.missing_field "seq") f.seq) λ seq.
        and_then (required (c.missing_field "type") f.ty) λ ty.
          and_then (required (c.missing_field "body") f.body) λ body_val.
            map_ok
              (λ body. record { v = v; seq = seq; re = unwrap_or f.re none; ty = ty; body = body })
              (from_value c ty body_val)

  -- `impl Deserialize for Envelope`
  unfoldable pub deserialize : Fields → Result String Envelope
  unfolding visit complete
  deserialize fs = and_then (visit fs nothing_read) complete
