-- ===== src/Daemon/Drive.antt =====
-- pan-daemon/src/server.rs: the driver of one connection, line by line, with the tasks that it spawns.
-- The parser of a line's text and the measure of its bytes are parameters.
pub mod Steps
pub mod Tally
pub mod Numbers
pub mod Settles
pub mod Sessions
use Prim.Native.Char.{Char}
use pan.Prelude.{
  ℕ, ◌*◌, Bool, true, false, not, ltb, String, List, [], ◌∷◌, ◌++◌, Option, none, some, Result, ok,
  err, str_eq, if◌then◌else◌, ◌⧺◌, map_err, same_char,
}
use pan.Json.{Fields}
use pan.Daemon.Wire.{
  ErrorCode, bad_frame, version_unsupported, MessageType, perceive, shutdown, Body, error_body,
  Envelope, outgoing,
}
use pan.Daemon.Wire.Codec.{Serde, deserialize}
use pan.Daemon.Session
use pan.Daemon.Session.{
  Runtime, Session, SessionError, PerceiveJob, alloc_seq, begin_perceive, finish_perceive, run_job,
  handle,
}

abbrev pub max_line_bytes : ℕ
max_line_bytes = 1024 * 1024

-- What the driver takes from elsewhere: a line's length, its fields if it is the text of an object, and
-- the bodies.
pub record Host : Type 0 where
  pub bytes : String → ℕ
  pub fields_of_line : String → Option Fields
  pub serde : Serde

-- `if line.ends_with(c) { line.pop() }`
unfoldable pub pop_if : Char → String → String
pop_if c String.[] = String.[]
pop_if c (String.◌∷◌ d rest) =
    let popped = pop_if c rest in
    if str_eq rest ""
    then (if same_char d c then String.[] else String.◌∷◌ d rest)
    else String.◌∷◌ d popped

unfoldable pub parse_envelope : Host → String → Result (ErrorCode × String) Envelope
unfolding deserialize
parse_envelope host line = elim (host.fields_of_line line) [
  | none ↦ err (bad_frame, "bad JSON line: " ⧺ line)
  | some fs ↦ map_err (λ m. (bad_frame, "bad JSON line: " ⧺ line)) (deserialize host.serde fs)
]

-- A connection: `queue` is what the reader writes before it reads on, `jobs` the tasks whose minds are
-- deciding, `finished` the tasks that have a reply to write, and `written` what the peer has been sent.
pub record Connection (W : Type 0) : Type 0 where
  pub session : Session W
  pub world : W
  pub is_open : Bool
  pub queue : List Envelope
  pub jobs : List (PerceiveJob W)
  pub finished : List Envelope
  pub written : List Envelope

abbrev pub is_perceive : MessageType → Bool
is_perceive perceive = true
is_perceive _ = false

abbrev pub is_shutdown : MessageType → Bool
is_shutdown shutdown = true
is_shutdown _ = false

module _ {W : Type 0} where
  unfoldable pub accepted : W → Connection W
  unfolding Session.new
  accepted w = record {
    session = Session.new;
    world = w;
    is_open = true;
    queue = [];
    jobs = [];
    finished = [];
    written = [];
  }

  -- An error that answers no message.
  unfoldable pub complain : ErrorCode → String → Connection W → Connection W
  unfolding alloc_seq outgoing
  complain code message c =
      let (seq, s) = alloc_seq c.session in
      record c {
        session = s;
        queue = outgoing seq none (error_body (record { code = code; message = message })) ∷ [];
      }

  -- What follows `begin_perceive`.
  unfoldable pub after_begin :
      Connection W → Result (List Envelope) (PerceiveJob W) × Session W → Connection W
  after_begin c (err replies, s) = record c { session = s; queue = replies }
  after_begin c (ok job, s) = record c { session = s; jobs = c.jobs ++ job ∷ [] }

  -- What follows `handle`; `inbound_was_shutdown` closes.
  unfoldable pub after_handle :
      Runtime W
      → Bool
      → Connection W
      → Result SessionError (List Envelope) × Session W × W
      → Connection W
  unfolding complain
  after_handle rt inbound_was_shutdown c (ok responses, s, w) = record c {
    session = s;
    world = w;
    queue = responses;
    is_open = not inbound_was_shutdown;
  }
  after_handle rt inbound_was_shutdown c (err (Session.version_unsupported client ours), s, w) =
      complain version_unsupported
        ("protocol_version mismatch: client=" ⧺ rt.decimal client ⧺ ", daemon=" ⧺ rt.decimal ours)
        (record c { session = s; world = w; is_open = false })

  unfoldable pub on_envelope : Runtime W → Envelope → Connection W → Connection W
  unfolding after_begin after_handle begin_perceive handle
  on_envelope rt env c =
      if is_perceive env.ty
      then after_begin c (begin_perceive rt env.seq env.body c.session)
      else after_handle rt (is_shutdown env.ty) c (handle rt env c.session c.world)

  -- One turn of the loop of `drive`: a line of the peer.
  unfoldable pub receive : Host → Runtime W → String → Connection W → Connection W
  unfolding pop_if parse_envelope complain on_envelope
  receive host rt line_buf c =
      let line = pop_if "\r" (pop_if "\n" line_buf) in
      if str_eq line ""
      then c
      else if ltb max_line_bytes (host.bytes line)
      then complain bad_frame ("line exceeds " ⧺ rt.decimal max_line_bytes ⧺ " bytes") c
      else elim (parse_envelope host line) [
        | ok env ↦ on_envelope rt env c
        | err e ↦ complain e.0 e.1 c
      ]

  -- The rest of a task, in one step: its mind, the dispatch, and the session's lock.
  unfoldable pub finish :
      Runtime W → PerceiveJob W → List (PerceiveJob W) → Connection W → Connection W
  unfolding run_job finish_perceive
  finish rt job others c =
      let (outcome, w) = run_job rt job c.world in
      let (outs, s) = finish_perceive rt job outcome c.session in
      record c { session = s; world = w; jobs = others; finished = c.finished ++ outs }
