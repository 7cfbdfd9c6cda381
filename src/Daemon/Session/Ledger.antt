-- ===== src/Daemon/Session/Ledger.antt =====
-- The ledger of the goals' newest revisions, and the replies that it holds back.
use pan.Prelude.{
  ℕ, ◌≤◌, ◌≡◌, refl, inl, inr, String, List, Bool-cases, Option-cases, Result-cases, Result, ok,
  err, arith, not, ◌==◌, ◌||◌, str_eq, eq_iff, ltb, unwrap_or, if◌then◌else◌,
}
use pan.Schema.{Goal}
use pan.Table.{Table, lookup, lookup-insert}
use pan.Registry
use pan.Daemon.Wire.{
  Body, hello_body, register_body, instantiate_body, release_body, perceive_body, hello, welcome,
  register_capabilities, instantiate_soul, release_soul, perceive, decision, ack, error, shutdown,
  MessageType, Envelope, protocol_version,
}
use pan.Daemon.Dispatch.{DispatchOutcome, passed, failed}
use pan.Daemon.Session.{
  Runtime, Session, PerceiveJob, register_each, note_revision, reply, error_response, on_hello,
  on_register, on_instantiate, on_release, on_shutdown, begin_perceive, format_perceive_outcome,
  finish_perceive, run_job, rest_of_perceive, on_perceive, handle,
}

-- The newest revision of a goal that a session has begun on.
unfoldable pub revision_of : {W : Type 0} → String → Session W → ℕ
revision_of id s = unwrap_or (lookup id s.latest_revision) 0

note_revision-Raised :
    (goal : Goal) (id : String) (ledger : Table ℕ)
    → unwrap_or (lookup id ledger) 0 ≤ unwrap_or (lookup id (note_revision goal ledger)) 0
unfolding note_revision
note_revision-Raised goal id ledger =
    rw
      (lookup-insert goal.id id
        (if ltb (unwrap_or (lookup goal.id ledger) 0) goal.revision
          then goal.revision
          else unwrap_or (lookup goal.id ledger) 0)
        ledger)
      (ground (arith, eq_iff goal.id id))

pub note_revision-Noted :
    (goal : Goal) (ledger : Table ℕ)
    → goal.revision ≤ unwrap_or (lookup goal.id (note_revision goal ledger)) 0
unfolding note_revision
note_revision-Noted goal ledger =
    rw
      (lookup-insert goal.id goal.id
        (if ltb (unwrap_or (lookup goal.id ledger) 0) goal.revision
          then goal.revision
          else unwrap_or (lookup goal.id ledger) 0)
        ledger)
      (ground (arith, eq_iff goal.id goal.id))

module _ {W : Type 0} where
  -- A reply leaves the ledger as it was.
  finish_perceive-Ledger :
      (rt : Runtime W) (job : PerceiveJob W) (o : DispatchOutcome) (s : Session W)
      → (finish_perceive rt job o s).1.latest_revision ≡ s.latest_revision
  unfolding finish_perceive format_perceive_outcome error_response reply
  finish_perceive-Ledger rt job (passed is) s =
      elim (Bool-cases
        (ltb job.goal.revision (unwrap_or (lookup job.goal.id s.latest_revision) 0))) [
          | inl e ↦ rw (e, finish_perceive) refl
          | inr e ↦ rw (e, finish_perceive) refl
        ]
  finish_perceive-Ledger rt job (failed c m) s =
      elim (Bool-cases
        (ltb job.goal.revision (unwrap_or (lookup job.goal.id s.latest_revision) 0))) [
          | inl e ↦ rw (e, finish_perceive) refl
          | inr e ↦ rw (e, finish_perceive) refl
        ]

  kept :
      (s t : Session W) (id : String)
      → t.latest_revision ≡ s.latest_revision
      → revision_of id s ≤ revision_of id t
  unfolding revision_of
  kept s t id e = rw e (omega arith)

  on_hello-Ledger :
      (rt : Runtime W) (re : ℕ) (b : Body) (s : Session W)
      → (on_hello rt re b s).1.latest_revision ≡ s.latest_revision
  unfolding on_hello error_response reply
  on_hello-Ledger rt re (hello_body b) s =
      elim (Bool-cases
        (not (b.protocol_version == protocol_version) || not (str_eq b.profile "reachlock/0"))) [
          | inl e ↦ rw (e, on_hello) refl
          | inr e ↦ rw (e, on_hello) refl
        ]
  on_hello-Ledger rt re _ s = refl

  on_register-Ledger :
      (re : ℕ) (b : Body) (s : Session W)
      → (on_register re b s).1.latest_revision ≡ s.latest_revision
  unfolding on_register error_response reply
  on_register-Ledger re (register_body cs) s = elim (Result-cases (register_each cs Registry.new)) [
    | inl (r, e) ↦ rw (e, on_register) refl
    | inr (x, e) ↦ rw (e, on_register) refl
  ]
  on_register-Ledger re _ s = refl

  on_instantiate-Ledger :
      (rt : Runtime W) (re : ℕ) (b : Body) (s : Session W)
      → (on_instantiate rt re b s).1.latest_revision ≡ s.latest_revision
  unfolding on_instantiate error_response reply
  on_instantiate-Ledger rt re (instantiate_body b) s = refl
  on_instantiate-Ledger rt re _ s = refl

  on_release-Ledger :
      (re : ℕ) (b : Body) (s : Session W)
      → (on_release re b s).1.latest_revision ≡ s.latest_revision
  unfolding on_release error_response reply
  on_release-Ledger re (release_body id) s = elim (Option-cases (lookup id s.souls)) [
    | inl e ↦ rw (e, on_release) refl
    | inr (x, e) ↦ rw (e, on_release) refl
  ]
  on_release-Ledger re _ s = refl

  -- The end of a job does not move the ledger back.
  pub finish_perceive-Raised :
      (rt : Runtime W) (job : PerceiveJob W) (o : DispatchOutcome) (s : Session W) (id : String)
      → revision_of id s ≤ revision_of id (finish_perceive rt job o s).1
  unfolding revision_of
  finish_perceive-Raised rt job o s id = rw (finish_perceive-Ledger rt job o s) (omega arith)

  -- Nor does the beginning of one, which notes the revision that it begins on.
  pub begin_perceive-Raised :
      (rt : Runtime W) (re : ℕ) (b : Body) (s : Session W) (id : String)
      → revision_of id s ≤ revision_of id (begin_perceive rt re b s).1
  unfolding revision_of begin_perceive error_response reply
  begin_perceive-Raised rt re (perceive_body b) s id =
      elim (Option-cases (lookup b.soul_id s.souls)) [
        | inl e ↦ rw (e, begin_perceive) (omega arith)
        | inr (x, e) ↦ rw (e, begin_perceive) (note_revision-Raised b.goal id s.latest_revision)
      ]
  begin_perceive-Raised rt re _ s id = omega arith

  rest_of_perceive-Raised :
      (rt : Runtime W) (s : Session W) (w : W) (id : String)
      (b : Result (List Envelope) (PerceiveJob W) × Session W)
      → revision_of id s ≤ revision_of id b.1
      → revision_of id s ≤ revision_of id (rest_of_perceive rt b w).0.1
  unfolding rest_of_perceive
  rest_of_perceive-Raised rt s w id (err out, t) h = h
  rest_of_perceive-Raised rt s w id (ok job, t) h =
      let after = finish_perceive-Raised rt job (run_job rt job w).0 t id in omega arith

  on_perceive-Raised :
      (rt : Runtime W) (re : ℕ) (b : Body) (s : Session W) (w : W) (id : String)
      → revision_of id s ≤ revision_of id (on_perceive rt re b s w).0.1
  unfolding on_perceive
  on_perceive-Raised rt re b s w id =
      rest_of_perceive-Raised rt s w id (begin_perceive rt re b s)
        (begin_perceive-Raised rt re b s id)

  -- No message moves the ledger back.
  pub handle-Raised :
      (rt : Runtime W) (env : Envelope) (s : Session W) (w : W) (id : String)
      → revision_of id s ≤ revision_of id (handle rt env s w).1
  unfolding handle error_response reply on_shutdown revision_of
  handle-Raised rt env s w id = go env.ty
    where
      go :
          (ty : MessageType)
          → revision_of id s ≤ revision_of id (handle rt (record env { ty = ty }) s w).1
      go hello =
          kept s (on_hello rt env.seq env.body s).1 id (on_hello-Ledger rt env.seq env.body s)
      go welcome = omega arith
      go register_capabilities =
          kept s (on_register env.seq env.body s).1 id (on_register-Ledger env.seq env.body s)
      go instantiate_soul =
          kept s (on_instantiate rt env.seq env.body s).1 id
            (on_instantiate-Ledger rt env.seq env.body s)
      go release_soul =
          kept s (on_release env.seq env.body s).1 id (on_release-Ledger env.seq env.body s)
      go perceive = on_perceive-Raised rt env.seq env.body s w id
      go decision = omega arith
      go ack = omega arith
      go error = omega arith
      go shutdown = omega arith
