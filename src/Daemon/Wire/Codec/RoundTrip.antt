-- ===== src/Daemon/Wire/Codec/RoundTrip.antt =====
-- Envelopes survive the wire, and the reader skips the keys that it does not know.
use pan.Prelude.{
  ℕ, ◌<◌, ◌^◌, ◌≡◌, refl, ◌∙◌, ap, sym, String, Bool, false, ◌||◌, Option, none, some, ok, and_then,
  str_eq, if◌then◌else◌, arith, Bool-cases, Result-cases, inl, inr,
}
use pan.Json.{Value, number, pos_int, text, Fields, end, field}
use pan.Daemon.Wire.{
  MessageType, hello, welcome, register_capabilities, instantiate_soul, release_soul, perceive,
  decision, ack, error, shutdown, type_text, from_wire, Body, hello_body, welcome_body,
  register_body, instantiate_body, release_body, perceive_body, decision_body, ack_body, error_body,
  shutdown_body, body_type, Envelope,
}
use pan.Daemon.Wire.Codec.{
  Serde, body_value, labelled, from_value, serialize, Partial, nothing_read, read_key, visit,
  complete, deserialize,
}

-- Every message type is read back from its spelling.
pub from_wire-type_text : (t : MessageType) → from_wire (type_text t) ≡ some t
unfolding from_wire type_text
from_wire-type_text hello = refl
from_wire-type_text welcome = refl
from_wire-type_text register_capabilities = refl
from_wire-type_text instantiate_soul = refl
from_wire-type_text release_soul = refl
from_wire-type_text perceive = refl
from_wire-type_text decision = refl
from_wire-type_text ack = refl
from_wire-type_text error = refl
from_wire-type_text shutdown = refl

-- What serde and its derived instances document of numbers and message types.
pub record Documented (c : Serde) : Type 0 where
  pub u32 : (n : ℕ) → n < 2 ^ 32 → c.u32_of (number (pos_int n)) ≡ ok n
  pub u64 : (n : ℕ) → n < 2 ^ 64 → c.u64_of (number (pos_int n)) ≡ ok n
  pub option : (n : ℕ) → n < 2 ^ 64 → c.option_of (number (pos_int n)) ≡ ok (some n)
  pub type : (t : MessageType) → c.type_of (text (type_text t)) ≡ ok t

is_known : String → Bool
is_known k = str_eq k "v" || str_eq k "seq" || str_eq k "re" || str_eq k "type" || str_eq k "body"

-- The fields that an envelope has.
unfoldable pub known_fields : Fields → Fields
unfolding is_known
known_fields end = end
known_fields (field k x rest) =
    if is_known k then field k x (known_fields rest) else known_fields rest

-- An envelope whose numbers fit the wire and whose type is its body's.
pub record Sendable (e : Envelope) : Type 0 where
  pub v_fits : e.v < 2 ^ 32
  pub seq_fits : e.seq < 2 ^ 64
  pub re_fits : (n : ℕ) → e.re ≡ some n → n < 2 ^ 64
  pub typed : e.ty ≡ body_type e.body

module _ (c : Serde) where
  -- The derived instances read the body back that they wrote.
  unfoldable pub BodyExact : Body → Type 0
  BodyExact (hello_body b) = c.hello_format.of (c.hello_format.to b) ≡ ok b
  BodyExact (welcome_body b) = c.welcome_format.of (c.welcome_format.to b) ≡ ok b
  BodyExact (register_body b) = c.register_format.of (c.register_format.to b) ≡ ok b
  BodyExact (instantiate_body b) = c.instantiate_format.of (c.instantiate_format.to b) ≡ ok b
  BodyExact (release_body b) = c.release_format.of (c.release_format.to b) ≡ ok b
  BodyExact (perceive_body b) = c.perceive_format.of (c.perceive_format.to b) ≡ ok b
  BodyExact (decision_body b) = c.decision_format.of (c.decision_format.to b) ≡ ok b
  BodyExact ack_body = c.ack_format.of (c.ack_format.to tt) ≡ ok tt
  BodyExact (error_body b) = c.error_format.of (c.error_format.to b) ≡ ok b
  BodyExact shutdown_body = c.shutdown_format.of (c.shutdown_format.to tt) ≡ ok tt

  from_value-body_value :
      (b : Body) → BodyExact b → from_value c (body_type b) (body_value c b) ≡ ok b
  unfolding from_value body_value body_type BodyExact
  from_value-body_value (hello_body b) h = ap (labelled "hello" hello_body) h
  from_value-body_value (welcome_body b) h = ap (labelled "welcome" welcome_body) h
  from_value-body_value (register_body b) h = ap (labelled "register_capabilities" register_body) h
  from_value-body_value (instantiate_body b) h = ap (labelled "instantiate_soul" instantiate_body) h
  from_value-body_value (release_body b) h = ap (labelled "release_soul" release_body) h
  from_value-body_value (perceive_body b) h = ap (labelled "perceive" perceive_body) h
  from_value-body_value (decision_body b) h = ap (labelled "decision" decision_body) h
  from_value-body_value ack_body h = ap (labelled "ack" (λ u. ack_body)) h
  from_value-body_value (error_body b) h = ap (labelled "error" error_body) h
  from_value-body_value shutdown_body h = ap (labelled "shutdown" (λ u. shutdown_body)) h

  -- A sendable envelope is read back as it was sent, with a `re` and without one, where serde reads
  -- back its body, the spellings of the types and the numbers that fit.
  pub deserialize-serialize :
      (e : Envelope)
      → Documented c
      → BodyExact e.body
      → Sendable e
      → deserialize c (serialize c e) ≡ ok e
  unfolding deserialize serialize visit read_key complete
  deserialize-serialize e d b p = go e.re p.re_fits
    where
      go :
          (re : Option ℕ)
          → ((n : ℕ) → re ≡ some n → n < 2 ^ 64)
          → deserialize c (serialize c (record e { re = re })) ≡ ok (record e { re = re })
      go none fits =
          rw
            (
              d.u32 e.v p.v_fits,
              d.u64 e.seq p.seq_fits,
              p.typed,
              d.type (body_type e.body),
              from_value-body_value e.body b,
            )
            refl
      go (some n) fits =
          rw
            (
              d.u32 e.v p.v_fits,
              d.u64 e.seq p.seq_fits,
              d.option n (fits n refl),
              p.typed,
              d.type (body_type e.body),
              from_value-body_value e.body b,
            )
            refl

  read_key-unknown :
      (k : String) (x : Value) (f : Partial) → is_known k ≡ false → read_key c k x f ≡ ok f
  unfolding read_key is_known
  read_key-unknown k x f h = ground arith

  visit-known_fields : (fs : Fields) (f : Partial) → visit c (known_fields fs) f ≡ visit c fs f
  unfolding visit known_fields
  visit-known_fields end f = refl
  visit-known_fields (field k x rest) f = elim (Bool-cases (is_known k)) [
    | inl e ↦ elim (Result-cases (read_key c k x f)) [
      | inl (g, r) ↦ rw (e, r, known_fields, visit) (visit-known_fields rest g)
      | inr (m, r) ↦ rw (e, r, known_fields, visit) refl
    ]
    | inr e ↦ rw (e, read_key-unknown k x f e, known_fields) (visit-known_fields rest f)
  ]

  -- Keys that the protocol does not define change nothing in what a line is read as, wherever they
  -- stand and whatever they hold, be it an envelope or an error.
  pub deserialize-known_fields : (fs : Fields) → deserialize c (known_fields fs) ≡ deserialize c fs
  unfolding deserialize
  deserialize-known_fields fs =
      ap (λ r. and_then r (complete c)) (visit-known_fields fs nothing_read)

  from_value-Typed :
      (t : MessageType) (x : Value) (b : Body) → from_value c t x ≡ ok b → body_type b ≡ t
  unfolding from_value body_type
  from_value-Typed hello x b h = ground arith
  from_value-Typed welcome x b h = ground arith
  from_value-Typed register_capabilities x b h = ground arith
  from_value-Typed instantiate_soul x b h = ground arith
  from_value-Typed release_soul x b h = ground arith
  from_value-Typed perceive x b h = ground arith
  from_value-Typed decision x b h = ground arith
  from_value-Typed ack x b h = ground arith
  from_value-Typed error x b h = ground arith
  from_value-Typed shutdown x b h = ground arith

  complete-Typed : (f : Partial) (e : Envelope) → complete c f ≡ ok e → body_type e.body ≡ e.ty
  unfolding complete
  complete-Typed f e h = go f.v f.seq f.ty f.body h
    where
      go :
          (v seq : Option ℕ) (ty : Option MessageType) (body : Option Value)
          → complete c (record { v = v; seq = seq; re = f.re; ty = ty; body = body }) ≡ ok e
          → body_type e.body ≡ e.ty
      go none seq ty body h = ground arith
      go (some v) none ty body h = ground arith
      go (some v) (some seq) none body h = ground arith
      go (some v) (some seq) (some ty) none h = ground arith
      go (some v) (some seq) (some ty) (some x) h = elim (Result-cases (from_value c ty x)) [
        | inl (b, r) ↦ let typed = from_value-Typed ty x b r in ground arith
        | inr (m, r) ↦ ground arith
      ]

  -- Whatever is read as an envelope has the type of its body.
  pub deserialize-Typed :
      (fs : Fields) (e : Envelope) → deserialize c fs ≡ ok e → body_type e.body ≡ e.ty
  unfolding deserialize
  deserialize-Typed fs e h = elim (Result-cases (visit c fs nothing_read)) [
    | inl (f, r) ↦ complete-Typed f e (ap (λ x. and_then x (complete c)) (sym r) ∙ h)
    | inr (m, r) ↦ ground arith
  ]
