-- ===== src/Examples/Wire.antt =====
-- The wire at one message, with a serde that writes nothing but the name of a soul.
use pan.Prelude.{
  ℕ, ◌^◌, ◌≡◌, refl, ap, String, Option, none, some, Result, ok, err, ltb, lt→ltb, if◌then◌else◌,
  arith,
}
use pan.Json.{Value, null, number, pos_int, text, object, end, Fields, field}
use pan.Daemon.Wire.{MessageType, from_wire, release_body, body_type, release_soul, Envelope}
use pan.Daemon.Wire.Codec.{Format, Serde, serialize, deserialize}
use pan.Daemon.Wire.Codec.RoundTrip.{
  from_wire-type_text, Documented, BodyExact, Sendable, deserialize-serialize, deserialize-Typed,
}

abbrev unwritten : {A : Type 0} → Format A
unwritten = record { to = λ a. object end; of = λ v. err "not written" }

abbrev uint : ℕ → Value → Result String ℕ
uint top (number (pos_int n)) = if ltb n top then ok n else err "out of range"
uint top _ = err "not a number"

abbrev optional : Value → Result String (Option ℕ)
optional null = ok none
optional (number (pos_int n)) = if ltb n (2 ^ 64) then ok (some n) else err "out of range"
optional _ = err "not a number"

abbrev known_type : Option MessageType → Result String MessageType
known_type (some t) = ok t
known_type none = err "unknown variant"

abbrev named : Value → Result String MessageType
named (text s) = known_type (from_wire s)
named _ = err "not a text"

abbrev soul_named : Value → Result String String
soul_named (text s) = ok s
soul_named _ = err "not a text"

abbrev pub souls_only : Serde
souls_only = record {
  u32_of = uint (2 ^ 32);
  u64_of = uint (2 ^ 64);
  option_of = optional;
  type_of = named;
  missing_field = λ name. name;
  hello_format = unwritten;
  welcome_format = unwritten;
  register_format = unwritten;
  instantiate_format = unwritten;
  release_format = record { to = text; of = soul_named };
  perceive_format = unwritten;
  decision_format = unwritten;
  ack_format = unwritten;
  error_format = unwritten;
  shutdown_format = unwritten;
}

souls_only-Documented : Documented souls_only
souls_only-Documented = record {
  u32 = λ n h. rw (lt→ltb n (2 ^ 32) h) refl;
  u64 = λ n h. rw (lt→ltb n (2 ^ 64) h) refl;
  option = λ n h. rw (lt→ltb n (2 ^ 64) h) refl;
  type = λ t. ap known_type (from_wire-type_text t);
}

abbrev pub release : Envelope
release = record { v = 0; seq = 7; re = some 3; ty = release_soul; body = release_body "bob" }

release-Sendable : Sendable release
unfolding body_type
release-Sendable = record {
  v_fits = omega arith;
  seq_fits = omega arith;
  re_fits = λ n e. ground arith;
  typed = refl;
}

deserialize-serialize_example : deserialize souls_only (serialize souls_only release) ≡ ok release
unfolding BodyExact
deserialize-serialize_example =
    deserialize-serialize souls_only release souls_only-Documented refl release-Sendable

abbrev extended : Fields
extended = field "trace" (text "x") (
    field "v" (number (pos_int 0)) (
      field "seq" (number (pos_int 7))
        (field "type" (text "release_soul") (field "body" (text "bob") (field "w" null end)))))

abbrev received : Envelope
received = record { v = 0; seq = 7; re = none; ty = release_soul; body = release_body "bob" }

deserialize-Typed_example : body_type received.body ≡ received.ty
unfolding deserialize from_wire
deserialize-Typed_example = deserialize-Typed souls_only extended received refl
