-- ===== src/Daemon/Dispatch/Laws.antt =====
-- What the dispatch of a decision comes to under the session's own pipeline.
use pan.Prelude.{
  ◌≡◌, refl, inl, inr, String, List, [], ◌∷◌, Option, none, some, Option-cases, Result-cases,
  Result, ok, err, map_ok, subst, ◌∙◌,
}
use pan.Json.{Value, text, object, field, end}
use pan.Schema.{Scope, Decision, ActionIntent, invoke, express, conclude}
use pan.Registry
use pan.Registry.{CapabilityRegistry}
use pan.Governor.{Verdict}
use pan.Events.{spawn}
use pan.Pipeline.{PipelineError, unresolved, invalid, EffectRequest, State, Effected}
use pan.Pipeline.Stages.{
  dispatch, admit, execute, resolve, validate, govern, judged, run_effect, pre_invoke_all,
  post_invoke_all, executor_call, finished,
}
use pan.Pipeline.Check.{minimal_schema_check}
use pan.Daemon.Wire.{ErrorCode}
use pan.Daemon.Dispatch.{
  resolve_governor, echo_executor, session_pipeline, core_pipeline, passed, failed,
  pipeline_err_to_wire, pipeline_err_message, with_conclusion, dispatch_intents, dispatch_decision,
}

-- The specification: why a call is refused, from the registry alone.
unfoldable pub misfit : CapabilityRegistry → String → Value → Option PipelineError
unfolding Registry.lookup
misfit registry capability args = elim (Registry.lookup registry capability) [
  | none ↦ some (unresolved capability)
  | some cap ↦ elim (minimal_schema_check cap.args_schema args) [
    | ok _ ↦ none
    | err reason ↦ some (invalid capability reason)
  ]
]

-- The first refusal of a decision.
unfoldable pub first_misfit : CapabilityRegistry → List ActionIntent → Option PipelineError
unfolding misfit
first_misfit registry [] = none
first_misfit registry (invoke capability args correlation ∷ is) =
    let rest = first_misfit registry is in
    elim (misfit registry capability args) [ some e ↦ some e | none ↦ rest ]
first_misfit registry (express body ∷ is) = first_misfit registry is
first_misfit registry (conclude o ∷ is) = first_misfit registry is

-- What the executor answers.
abbrev echoed : String → Value → Effected
echoed capability args = record {
  capability = capability;
  result = object (field "args" args (field "executed" (text capability) end));
}

-- A result that refuses with `o`, in the world `w`.
Vetted : {W A : Type 0} → Option PipelineError → W → Result PipelineError A × State W → Type 0
Vetted {A} none w (r, s) = (s.world ≡ w) × ((a : A) × (r ≡ ok a))
Vetted (some e) w (r, s) = (s.world ≡ w) × (r ≡ err e)

-- What an intent loop that refuses with `o` comes to.
intents_result :
    (Verdict → String)
    → List ActionIntent
    → Option PipelineError
    → Result (ErrorCode × String) (List ActionIntent)
intents_result debug is none = ok is
intents_result debug is (some e) = err (pipeline_err_to_wire e, pipeline_err_message debug e)

intents_result-cons :
    (debug : Verdict → String) (i : ActionIntent) (is : List ActionIntent)
    (o : Option PipelineError)
    → map_ok (λ out. i ∷ out) (intents_result debug is o) ≡ intents_result debug (i ∷ is) o
unfolding intents_result
intents_result-cons debug i is none = refl
intents_result-cons debug i is (some e) = refl

module _ {W : Type 0} (registry : CapabilityRegistry) where
  dispatch-Vetted :
      (capability : String) (args : Value) (correlation : Option String) (scope : Scope)
      (s : State W)
      → Vetted (misfit registry capability args) s.world (
          dispatch
            (core_pipeline registry (session_pipeline registry))
            (record {
              capability = capability;
              args = args;
              correlation = correlation;
              scope = scope;
            })
            s)
  unfolding dispatch admit execute resolve validate govern judged run_effect pre_invoke_all
      post_invoke_all executor_call finished misfit Vetted core_pipeline session_pipeline
      echo_executor resolve_governor
  dispatch-Vetted capability args correlation scope s =
      elim (Option-cases (Registry.lookup registry capability)) [
        | inl e ↦ rw (e, Vetted, misfit, dispatch, admit, resolve) (refl, refl)
        | inr (c, e) ↦ elim (Result-cases (minimal_schema_check c.args_schema args)) [
          | inl (x, f) ↦
              rw (e, f, e, Vetted, misfit, dispatch, admit, resolve, validate)
                (refl, (echoed capability args, refl))
          | inr (reason, f) ↦
              rw (e, f, Vetted, misfit, dispatch, admit, resolve, validate) (refl, refl)
        ]
      ]

  -- The intents go through as they are, or the first that does not fit ends the loop.
  dispatch_intents-Vetted :
      (debug : Verdict → String) (scope : Scope) (is : List ActionIntent) (s : State W)
      → ((dispatch_intents debug (core_pipeline registry (session_pipeline registry)) scope is s).0
          ≡ intents_result debug is (first_misfit registry is))
        × ((dispatch_intents debug
              (core_pipeline registry (session_pipeline registry))
              scope
              is
              s).1.world
            ≡ s.world)
  unfolding dispatch_intents first_misfit intents_result Vetted
  dispatch_intents-Vetted debug scope [] s = (refl, refl)
  dispatch_intents-Vetted debug scope (invoke capability args correlation ∷ is) s =
      let p = core_pipeline registry (session_pipeline registry) in
      let req : EffectRequest = record {
        capability = capability;
        args = args;
        correlation = correlation;
        scope = scope;
      } in
      let vetted = dispatch-Vetted capability args correlation scope s in
      let behind = dispatch_intents-Vetted debug scope is (dispatch p req s).1 in
      elim (Option-cases (misfit registry capability args)) [
        | inl e ↦
            let (same, (eff, passes)) = subst (λ o. Vetted o s.world (dispatch p req s)) e vetted in
            (
              rw (passes, e, behind.0, dispatch_intents, first_misfit)
                  (intents_result-cons debug (invoke capability args correlation) is
                    (first_misfit registry is)),
              rw (passes, dispatch_intents) (behind.1 ∙ same),
            )
        | inr (x, e) ↦
            let (same, stops) = subst (λ o. Vetted o s.world (dispatch p req s)) e vetted in
            (rw (stops, e, dispatch_intents, first_misfit) refl, rw (stops, dispatch_intents) same)
      ]
  dispatch_intents-Vetted debug scope (express body ∷ is) s =
      let behind = dispatch_intents-Vetted debug scope is s in
      (
        rw behind.0 (intents_result-cons debug (express body) is (first_misfit registry is)),
        behind.1,
      )
  dispatch_intents-Vetted debug scope (conclude o ∷ is) s =
      let behind = dispatch_intents-Vetted debug scope is s in
      (rw behind.0 (intents_result-cons debug (conclude o) is (first_misfit registry is)), behind.1)

  -- A decision comes to its intents, with a conclusion, exactly if each call in it names a registered
  -- capability with fitting arguments; else to the error of its first call that does not. Neither the
  -- scope nor the printing of verdicts matters to which, and the world stays as it was.
  pub dispatch_decision-Vetted :
      (debug : Verdict → String) (d : Decision) (scope : Scope) (w : W)
      → dispatch_decision debug d registry scope (session_pipeline registry) w ≡ (
        elim (first_misfit registry d.intents) [
          | none ↦ passed (with_conclusion d.intents)
          | some e ↦ failed (pipeline_err_to_wire e) (pipeline_err_message debug e)
        ],
        w,
      )
  unfolding dispatch_decision intents_result
  dispatch_decision-Vetted debug d scope w =
      let (r, same) =
        dispatch_intents-Vetted debug scope d.intents (record { world = w; events = spawn }) in
      elim (Option-cases (first_misfit registry d.intents)) [
        | inl e ↦ rw (r, same, e, intents_result) refl
        | inr (x, e) ↦ rw (r, same, e, intents_result) refl
      ]
