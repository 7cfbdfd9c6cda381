-- ===== src/Daemon/Session.antt =====
-- pan-daemon/src/session.rs: the state machine of one connection.
mod Souls
pub mod Numbering
pub mod Ledger
pub mod Moves
pub mod Consistency
pub use Souls.{Runtime, SoulState}
unfoldable pub use Souls.{parse_rules_from_soul, from_body, provider, advertised_minds, no_provider}
use pan.Prelude.{
  ℕ, ◌+◌, ◌%◌, ◌^◌, Bool, ◌||◌, not, ◌==◌, ltb, str_eq, String, List, [], ◌∷◌, Option, none, some,
  Result, ok, err, if◌then◌else◌, unwrap_or, ◌⧺◌,
}
use pan.Json.{Value}
use pan.Schema.{Goal, Context, Capability, Decision, Scope}
use pan.Table.{Table, lookup, insert, remove}
use pan.Registry
use pan.Registry.{CapabilityRegistry, ConflictError, conflict_text}
use pan.Loop.{Provider}
use pan.Daemon.Wire.{
  ErrorCode, bad_frame, unknown_type, unknown_soul, provider_failure, superseded, MessageType,
  hello, welcome, register_capabilities, instantiate_soul, release_soul, perceive, decision, ack,
  error, shutdown, Body, hello_body, welcome_body, register_body, instantiate_body, release_body,
  perceive_body, decision_body, ack_body, error_body, Envelope, outgoing, protocol_version,
  server_identity,
}
use pan.Daemon.Dispatch.{
  SessionPipeline, session_pipeline, DispatchOutcome, passed, failed, dispatch_decision,
}

pub record Session (W : Type 0) : Type 0 where
  pub next_seq : ℕ
  pub registry : CapabilityRegistry
  pub pipeline : SessionPipeline W
  pub souls : Table SoulState
  pub latest_revision : Table ℕ

-- `SessionError`, of which the session makes one
pub data SessionError : Type 0 where
  version_unsupported : ℕ → ℕ → SessionError

pub record PerceiveJob (W : Type 0) : Type 0 where
  pub re : ℕ
  pub soul_id : String
  pub goal : Goal
  pub context : Context
  pub provider : Provider W
  pub caps : List Capability
  pub registry : CapabilityRegistry
  pub pipeline : SessionPipeline W

unfoldable pub not_instantiated : String → String
not_instantiated soul_id = "soul_id `" ⧺ soul_id ⧺ "` is not instantiated"

-- The first failure to register ends the loop.
unfoldable pub register_each :
    List Capability → CapabilityRegistry → Result ConflictError CapabilityRegistry
unfolding Registry.register
register_each [] r = ok r
register_each (c ∷ cs) r =
    let (r', result) = Registry.register r c in
    let rest = register_each cs r' in elim result [ ok _ ↦ rest | err e ↦ err e ]

-- The ledger's entry for the goal is raised to its revision.
unfoldable pub note_revision : Goal → Table ℕ → Table ℕ
note_revision goal ledger =
    let entry = unwrap_or (lookup goal.id ledger) 0 in
    insert goal.id (if ltb entry goal.revision then goal.revision else entry) ledger

-- A method of the session with its answer.
abbrev pub Replies : Type 0 → Type 0
Replies W = List Envelope × Session W

module _ {W : Type 0} where
  unfoldable pub new : Session W
  unfolding Registry.new session_pipeline
  new = record {
    next_seq = 0;
    registry = Registry.new;
    pipeline = session_pipeline Registry.new;
    souls = [];
    latest_revision = [];
  }

  -- `next_seq` and `alloc_seq`: the counter is a `u64`.
  unfoldable pub alloc_seq : Session W → ℕ × Session W
  alloc_seq s = (s.next_seq, record s { next_seq = (s.next_seq + 1) % 2 ^ 64 })

  -- `out`, as the only reply.
  unfoldable pub reply : ℕ → Body → Session W → Replies W
  unfolding alloc_seq outgoing
  reply re body s = let (seq, s') = alloc_seq s in (outgoing seq (some re) body ∷ [], s')

  unfoldable pub error_response : ℕ → ErrorCode → String → Session W → Replies W
  unfolding reply
  error_response re code message = reply re (error_body (record { code = code; message = message }))

  unfoldable pub on_hello :
      Runtime W → ℕ → Body → Session W → Result SessionError (List Envelope) × Session W
  unfolding error_response advertised_minds
  on_hello rt re (hello_body b) s =
      if not (b.protocol_version == protocol_version) || not (str_eq b.profile "reachlock/0")
      then (err (version_unsupported b.protocol_version protocol_version), s)
      else (let (out, t) =
            reply re
              (welcome_body (record {
                protocol_version = protocol_version;
                server = server_identity;
                minds = advertised_minds rt;
              }))
              s in
          (ok out, t))
  on_hello rt re body s =
      let (out, t) = error_response re bad_frame "hello body shape" s in (ok out, t)

  unfoldable pub on_register : ℕ → Body → Session W → Replies W
  unfolding error_response register_each conflict_text session_pipeline Registry.new
  on_register re (register_body capabilities) s = elim (register_each capabilities Registry.new) [
    | err e ↦ error_response re provider_failure ("register_capabilities: " ⧺ conflict_text e) s
    | ok r ↦ reply re ack_body (record s { registry = r; pipeline = session_pipeline r })
  ]
  on_register re body s = error_response re bad_frame "register_capabilities body shape" s

  unfoldable pub on_instantiate : Runtime W → ℕ → Body → Session W → Replies W
  unfolding error_response from_body
  on_instantiate rt re (instantiate_body b) s =
      reply re ack_body (record s { souls = insert b.soul_id (from_body rt b) s.souls })
  on_instantiate rt re body s = error_response re bad_frame "instantiate_soul body shape" s

  unfoldable pub on_release : ℕ → Body → Session W → Replies W
  unfolding error_response not_instantiated
  on_release re (release_body soul_id) s = elim (lookup soul_id s.souls) [
    | none ↦
        error_response re unknown_soul (not_instantiated soul_id)
          (record s { souls = remove soul_id s.souls })
    | some soul ↦ reply re ack_body (record s { souls = remove soul_id s.souls })
  ]
  on_release re body s = error_response re bad_frame "release_soul body shape" s

  unfoldable pub on_shutdown : ℕ → Session W → Replies W
  unfolding reply
  on_shutdown re s = reply re ack_body s

  unfoldable pub begin_perceive :
      Runtime W → ℕ → Body → Session W → Result (List Envelope) (PerceiveJob W) × Session W
  unfolding error_response not_instantiated provider note_revision
  begin_perceive rt re (perceive_body b) s = elim (lookup b.soul_id s.souls) [
    | none ↦
        let (out, t) = error_response re unknown_soul (not_instantiated b.soul_id) s in (err out, t)
    | some soul ↦ (
      ok (record {
        re = re;
        soul_id = b.soul_id;
        goal = b.goal;
        context = b.context;
        provider = provider rt soul;
        caps = Registry.all s.registry;
        registry = s.registry;
        pipeline = s.pipeline;
      }),
      record s { latest_revision = note_revision b.goal s.latest_revision },
    )
  ]
  begin_perceive rt re body s =
      let (out, t) = error_response re bad_frame "perceive body shape" s in (err out, t)

  unfoldable pub format_perceive_outcome : PerceiveJob W → DispatchOutcome → Session W → Replies W
  unfolding error_response
  format_perceive_outcome job (passed intents) s =
      reply job.re
        (decision_body (record {
          soul_id = job.soul_id;
          goal_id = job.goal.id;
          goal_revision = job.goal.revision;
          decision = record { intents = intents };
        }))
        s
  format_perceive_outcome job (failed code message) s = error_response job.re code message s

  unfoldable pub superseded_text : Runtime W → Goal → ℕ → String
  superseded_text rt goal latest =
      "goal `"
      ⧺ goal.id
      ⧺ "` revision "
      ⧺ rt.decimal goal.revision
      ⧺ " superseded by revision "
      ⧺ rt.decimal latest

  -- The enact boundary.
  unfoldable pub finish_perceive :
      Runtime W → PerceiveJob W → DispatchOutcome → Session W → Replies W
  unfolding error_response format_perceive_outcome superseded_text
  finish_perceive rt job outcome s =
      let latest = unwrap_or (lookup job.goal.id s.latest_revision) 0 in
      if ltb job.goal.revision latest
      then error_response job.re superseded (superseded_text rt job.goal latest) s
      else format_perceive_outcome job outcome s

  -- What a job does outside of the session: the mind decides, and the decision is dispatched.
  unfoldable pub run_job : Runtime W → PerceiveJob W → W → DispatchOutcome × W
  unfolding dispatch_decision
  run_job rt job w =
      let (d, w') = job.provider.decide job.goal job.context job.caps w in
      dispatch_decision rt.debug d job.registry (record { origin = "soul." ⧺ job.soul_id })
        job.pipeline w'

  -- The synchronous path: what follows `begin_perceive`, and the whole.
  unfoldable pub rest_of_perceive :
      Runtime W → Result (List Envelope) (PerceiveJob W) × Session W → W → Replies W × W
  unfolding run_job finish_perceive
  rest_of_perceive rt (err out, t) w = ((out, t), w)
  rest_of_perceive rt (ok job, t) w =
      let (outcome, w') = run_job rt job w in (finish_perceive rt job outcome t, w')

  unfoldable pub on_perceive : Runtime W → ℕ → Body → Session W → W → Replies W × W
  unfolding begin_perceive rest_of_perceive
  on_perceive rt re body s w = rest_of_perceive rt (begin_perceive rt re body s) w

  -- `handle`
  unfoldable pub handle :
      Runtime W → Envelope → Session W → W → Result SessionError (List Envelope) × Session W × W
  unfolding on_hello on_register on_instantiate on_release on_perceive on_shutdown error_response
  handle rt env s w = elim env.ty [
    | hello ↦ let (r, t) = on_hello rt env.seq env.body s in (r, t, w)
    | welcome ↦
        let (out, t) = error_response env.seq unknown_type "welcome is daemon-to-host only" s in
        (ok out, t, w)
    | register_capabilities ↦ let (out, t) = on_register env.seq env.body s in (ok out, t, w)
    | instantiate_soul ↦ let (out, t) = on_instantiate rt env.seq env.body s in (ok out, t, w)
    | release_soul ↦ let (out, t) = on_release env.seq env.body s in (ok out, t, w)
    | perceive ↦ let ((out, t), w') = on_perceive rt env.seq env.body s w in (ok out, t, w')
    | decision ↦
        let (out, t) =
          error_response env.seq unknown_type "decision/ack is daemon-to-host only" s in
        (ok out, t, w)
    | ack ↦
        let (out, t) =
          error_response env.seq unknown_type "decision/ack is daemon-to-host only" s in
        (ok out, t, w)
    | error ↦
        let (out, t) = error_response env.seq unknown_type "error is daemon-to-host only" s in
        (ok out, t, w)
    | shutdown ↦ let (out, t) = on_shutdown env.seq s in (ok out, t, w)
  ]
