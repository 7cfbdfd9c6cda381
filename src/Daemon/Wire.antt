-- ===== src/Daemon/Wire.antt =====
-- pan-daemon/src/wire.rs: the messages. The printing of the bodies is derived by serde.
pub mod Codec
use pan.Prelude.{ℕ, String, List, Option, none, some, str_eq, if◌then◌else◌}
use pan.Json.{Value}
use pan.Schema.{Goal, Context, Capability, Decision}

abbrev pub protocol_version : ℕ
protocol_version = 0

abbrev pub server_identity : String
server_identity = "pan-serve/0.1.0"

pub data MindKind : Type 0 where
  rules behavior_tree llm : MindKind

pub data ErrorCode : Type 0 where
  bad_frame unknown_type version_unsupported unknown_soul unknown_capability : ErrorCode
  invalid_args provider_failure superseded : ErrorCode

-- `ErrorCode::as_str`
unfoldable pub code_text : ErrorCode → String
code_text bad_frame = "bad_frame"
code_text unknown_type = "unknown_type"
code_text version_unsupported = "version_unsupported"
code_text unknown_soul = "unknown_soul"
code_text unknown_capability = "unknown_capability"
code_text invalid_args = "invalid_args"
code_text provider_failure = "provider_failure"
code_text superseded = "superseded"

pub data MessageType : Type 0 where
  hello welcome register_capabilities instantiate_soul release_soul : MessageType
  perceive decision ack error shutdown : MessageType

-- `MessageType::as_str`
unfoldable pub type_text : MessageType → String
type_text hello = "hello"
type_text welcome = "welcome"
type_text register_capabilities = "register_capabilities"
type_text instantiate_soul = "instantiate_soul"
type_text release_soul = "release_soul"
type_text perceive = "perceive"
type_text decision = "decision"
type_text ack = "ack"
type_text error = "error"
type_text shutdown = "shutdown"

unfoldable pub from_wire : String → Option MessageType
from_wire s =
    if str_eq s "hello"
    then some hello
    else if str_eq s "welcome"
    then some welcome
    else if str_eq s "register_capabilities"
    then some register_capabilities
    else if str_eq s "instantiate_soul"
    then some instantiate_soul
    else if str_eq s "release_soul"
    then some release_soul
    else if str_eq s "perceive"
    then some perceive
    else if str_eq s "decision"
    then some decision
    else if str_eq s "ack"
    then some ack
    else if str_eq s "error"
    then some error
    else if str_eq s "shutdown"
    then some shutdown
    else none

pub record HelloBody : Type 0 where
  pub protocol_version : ℕ
  pub profile : String
  pub client : String

pub record WelcomeBody : Type 0 where
  pub protocol_version : ℕ
  pub server : String
  pub minds : List MindKind

pub record InstantiateSoulBody : Type 0 where
  pub soul_id : String
  pub mind : MindKind
  pub soul : Value

pub record PerceiveBody : Type 0 where
  pub soul_id : String
  pub goal : Goal
  pub context : Context

pub record DecisionBody : Type 0 where
  pub soul_id : String
  pub goal_id : String
  pub goal_revision : ℕ
  pub decision : Decision

pub record ErrorBody : Type 0 where
  pub code : ErrorCode
  pub message : String

-- The bodies with one field, or none, are that field.
pub data Body : Type 0 where
  hello_body : HelloBody → Body
  welcome_body : WelcomeBody → Body
  register_body : List Capability → Body
  instantiate_body : InstantiateSoulBody → Body
  release_body : String → Body
  perceive_body : PerceiveBody → Body
  decision_body : DecisionBody → Body
  ack_body : Body
  error_body : ErrorBody → Body
  shutdown_body : Body

-- `Body::ty`
unfoldable pub body_type : Body → MessageType
body_type (hello_body _) = hello
body_type (welcome_body _) = welcome
body_type (register_body _) = register_capabilities
body_type (instantiate_body _) = instantiate_soul
body_type (release_body _) = release_soul
body_type (perceive_body _) = perceive
body_type (decision_body _) = decision
body_type ack_body = ack
body_type (error_body _) = error
body_type shutdown_body = shutdown

pub record Envelope : Type 0 where
  pub v : ℕ
  pub seq : ℕ
  pub re : Option ℕ
  pub ty : MessageType
  pub body : Body

-- `Envelope::outgoing`
unfoldable pub outgoing : ℕ → Option ℕ → Body → Envelope
unfolding body_type
outgoing seq re body = record {
  v = protocol_version;
  seq = seq;
  re = re;
  ty = body_type body;
  body = body;
}
