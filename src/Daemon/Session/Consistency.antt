-- ===== src/Daemon/Session/Consistency.antt =====
-- The pipeline of a session is the one for its registry, and so its jobs' outcomes are the registry's.
use pan.Prelude.{
  ◌⧺◌, ap, ◌∙◌, subst, ℕ, ◌≡◌, refl, inl, inr, List, none, some, Bool-cases, Option-cases,
  Result-cases, Result, ok, err, not, ◌==◌, ◌||◌, str_eq, ltb, unwrap_or,
}
use pan.Schema.{Scope, ActionIntent}
use pan.Table.{lookup}
use pan.Registry
use pan.Registry.{CapabilityRegistry}
use pan.Daemon.Wire.{
  Body, hello_body, register_body, instantiate_body, release_body, perceive_body, hello, welcome,
  register_capabilities, instantiate_soul, release_soul, perceive, decision, ack, error, shutdown,
  MessageType, Envelope, protocol_version,
}
use pan.Daemon.Dispatch.{
  session_pipeline, DispatchOutcome, passed, failed, pipeline_err_to_wire, pipeline_err_message,
  with_conclusion, dispatch_decision,
}
use pan.Daemon.Dispatch.Laws.{first_misfit, dispatch_decision-Vetted}
use pan.Daemon.Session.{
  Runtime, Session, PerceiveJob, register_each, new, alloc_seq, reply, error_response, on_hello,
  on_register, on_instantiate, on_release, on_shutdown, begin_perceive, format_perceive_outcome,
  finish_perceive, run_job, rest_of_perceive, on_perceive, handle,
}
use pan.Daemon.Session.Moves.{Moves, still, numbers, handles, begins, finishes}

module _ {W : Type 0} where
  -- The pipeline of the session governs and executes for the registry of the session.
  abbrev pub Consistent : Session W → Type 0
  Consistent s = s.pipeline ≡ session_pipeline s.registry

  on_hello-Consistent :
      (rt : Runtime W) (re : ℕ) (b : Body) (s : Session W)
      → Consistent s
      → Consistent (on_hello rt re b s).1
  unfolding on_hello error_response reply
  on_hello-Consistent rt re (hello_body b) s c =
      elim (Bool-cases
        (not (b.protocol_version == protocol_version) || not (str_eq b.profile "reachlock/0"))) [
          | inl e ↦ rw (e, on_hello) c
          | inr e ↦ rw (e, on_hello) c
        ]
  on_hello-Consistent rt re _ s c = c

  on_register-Consistent :
      (re : ℕ) (b : Body) (s : Session W) → Consistent s → Consistent (on_register re b s).1
  unfolding on_register error_response reply
  on_register-Consistent re (register_body cs) s c =
      elim (Result-cases (register_each cs Registry.new)) [
        | inl (r, e) ↦ rw (e, on_register) refl
        | inr (x, e) ↦ rw (e, on_register) c
      ]
  on_register-Consistent re _ s c = c

  on_instantiate-Consistent :
      (rt : Runtime W) (re : ℕ) (b : Body) (s : Session W)
      → Consistent s
      → Consistent (on_instantiate rt re b s).1
  unfolding on_instantiate error_response reply
  on_instantiate-Consistent rt re (instantiate_body b) s c = c
  on_instantiate-Consistent rt re _ s c = c

  on_release-Consistent :
      (re : ℕ) (b : Body) (s : Session W) → Consistent s → Consistent (on_release re b s).1
  unfolding on_release error_response reply
  on_release-Consistent re (release_body id) s c = elim (Option-cases (lookup id s.souls)) [
    | inl e ↦ rw (e, on_release) c
    | inr (x, e) ↦ rw (e, on_release) c
  ]
  on_release-Consistent re _ s c = c

  finish_perceive-Consistent :
      (rt : Runtime W) (job : PerceiveJob W) (o : DispatchOutcome) (s : Session W)
      → Consistent s
      → Consistent (finish_perceive rt job o s).1
  unfolding finish_perceive format_perceive_outcome error_response reply
  finish_perceive-Consistent rt job (passed is) s c =
      elim (Bool-cases
        (ltb job.goal.revision (unwrap_or (lookup job.goal.id s.latest_revision) 0))) [
          | inl e ↦ rw (e, finish_perceive) c
          | inr e ↦ rw (e, finish_perceive) c
        ]
  finish_perceive-Consistent rt job (failed k m) s c =
      elim (Bool-cases
        (ltb job.goal.revision (unwrap_or (lookup job.goal.id s.latest_revision) 0))) [
          | inl e ↦ rw (e, finish_perceive) c
          | inr e ↦ rw (e, finish_perceive) c
        ]

  -- The session after a perceive has begun, and the job, if there is one.
  BegunWell : Session W → Result (List Envelope) (PerceiveJob W) × Session W → Type 0
  BegunWell s (err out, t) = Consistent t
  BegunWell s (ok job, t) =
      Consistent t × (job.registry ≡ s.registry) × (job.pipeline ≡ session_pipeline s.registry)

  begin_perceive-BegunWell :
      (rt : Runtime W) (re : ℕ) (b : Body) (s : Session W)
      → Consistent s
      → BegunWell s (begin_perceive rt re b s)
  unfolding begin_perceive BegunWell error_response reply
  begin_perceive-BegunWell rt re (perceive_body b) s c =
      elim (Option-cases (lookup b.soul_id s.souls)) [
        | inl e ↦ rw (e, begin_perceive, BegunWell) c
        | inr (x, e) ↦ rw (e, begin_perceive, BegunWell) (c, refl, c)
      ]
  begin_perceive-BegunWell rt re _ s c = c

  BegunWell-Consistent :
      (s : Session W) (b : Result (List Envelope) (PerceiveJob W) × Session W)
      → BegunWell s b
      → Consistent b.1
  unfolding BegunWell
  BegunWell-Consistent s (err out, t) c = c
  BegunWell-Consistent s (ok job, t) c = c.0

  rest_of_perceive-Consistent :
      (rt : Runtime W) (w : W) (b : Result (List Envelope) (PerceiveJob W) × Session W)
      → Consistent b.1
      → Consistent (rest_of_perceive rt b w).0.1
  unfolding rest_of_perceive
  rest_of_perceive-Consistent rt w (err out, t) c = c
  rest_of_perceive-Consistent rt w (ok job, t) c =
      finish_perceive-Consistent rt job (run_job rt job w).0 t c

  -- Every message leaves the pipeline of a session that for its registry.
  pub handle-Consistent :
      (rt : Runtime W) (env : Envelope) (s : Session W) (w : W)
      → Consistent s
      → Consistent (handle rt env s w).1
  unfolding handle error_response reply on_shutdown on_perceive
  handle-Consistent rt env s w c = go env.ty
    where
      go : (ty : MessageType) → Consistent (handle rt (record env { ty = ty }) s w).1
      go hello = on_hello-Consistent rt env.seq env.body s c
      go welcome = c
      go register_capabilities = on_register-Consistent env.seq env.body s c
      go instantiate_soul = on_instantiate-Consistent rt env.seq env.body s c
      go release_soul = on_release-Consistent env.seq env.body s c
      go perceive =
          let begun = begin_perceive rt env.seq env.body s in
          rest_of_perceive-Consistent rt w begun
            (BegunWell-Consistent s begun (begin_perceive-BegunWell rt env.seq env.body s c))
      go decision = c
      go ack = c
      go error = c
      go shutdown = c

  pub Moves-Consistent :
      {rt : Runtime W} {s t : Session W} → Moves rt s t → Consistent s → Consistent t
  unfolding alloc_seq
  Moves-Consistent still c = c
  Moves-Consistent (numbers m) c = Moves-Consistent m c
  Moves-Consistent {rt} (handles {t} env w m) c =
      handle-Consistent rt env t w (Moves-Consistent m c)
  Moves-Consistent {rt} (begins {t} re b m) c =
      BegunWell-Consistent t (begin_perceive rt re b t)
        (begin_perceive-BegunWell rt re b t (Moves-Consistent m c))
  Moves-Consistent {rt} (finishes {t} job o m) c =
      finish_perceive-Consistent rt job o t (Moves-Consistent m c)

  -- What the registry makes of a mind's intents.
  unfoldable pub vetted : Runtime W → CapabilityRegistry → List ActionIntent → DispatchOutcome
  unfolding first_misfit
  vetted rt registry is = elim (first_misfit registry is) [
    | none ↦ passed (with_conclusion is)
    | some e ↦ failed (pipeline_err_to_wire e) (pipeline_err_message rt.debug e)
  ]

  -- In every session that a connection comes to, a job answers with its mind's intents as the registry
  -- of that moment vets them, whatever is registered while the mind decides; dispatching them leaves
  -- the world as the mind left it.
  pub run_job-Vetted :
      (rt : Runtime W) (s t : Session W) (re : ℕ) (b : Body) (job : PerceiveJob W) (w : W)
      → Moves rt new s
      → begin_perceive rt re b s ≡ (ok job, t)
      → run_job rt job w ≡ (
        vetted rt s.registry (job.provider.decide job.goal job.context job.caps w).0.intents,
        (job.provider.decide job.goal job.context job.caps w).1,
      )
  unfolding run_job BegunWell new vetted
  run_job-Vetted rt s t re b job w m h =
      let begun = begin_perceive-BegunWell rt re b s (Moves-Consistent m refl) in
      let (kept, registry, pipeline) = subst (λ r. BegunWell s r) h begun in
      let (d, w') = job.provider.decide job.goal job.context job.caps w in
      let scope : Scope = record { origin = "soul." ⧺ job.soul_id } in
      ap (λ r. dispatch_decision rt.debug d r scope job.pipeline w') registry
      ∙ ap (λ p. dispatch_decision rt.debug d s.registry scope p w') pipeline
      ∙ dispatch_decision-Vetted s.registry rt.debug d scope w'
