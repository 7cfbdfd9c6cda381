-- ===== src/Daemon/Dispatch.antt =====
-- pan-daemon/src/governor.rs, and the dispatch of a decision in pan-daemon/src/session.rs.
pub mod Laws
use pan.Prelude.{
  ℕ, Bool, true, false, is_some, any, String, List, [], ◌∷◌, ◌++◌, Result, ok, err, map_ok,
  if◌then◌else◌, ◌⧺◌,
}
use pan.Json.{Value, text, object, field, end}
use pan.Schema.{Scope, Decision, ActionIntent, invoke, express, conclude, Outcome, continue}
use pan.Registry
use pan.Registry.{CapabilityRegistry}
use pan.Governor.{Verdict, allow, deny, Governor}
use pan.Events.{spawn, shutdown}
use pan.Pipeline.{
  PipelineError, unresolved, invalid, rejected, execution, Executor, without_invoker, Pipeline,
  State,
}
use pan.Pipeline.Stages.{dispatch}
use pan.Daemon.Wire.{ErrorCode, unknown_capability, invalid_args, provider_failure}

module _ {W : Type 0} where
  -- `impl Governor for ResolveGovernor`
  unfoldable pub resolve_governor : CapabilityRegistry → Governor W
  unfolding Registry.lookup
  resolve_governor registry = record {
    govern = λ scope capability args w. (
      if is_some (Registry.lookup registry capability)
          then allow
          else deny ("capability `" ⧺ capability ⧺ "` is not registered"),
      w,
    );
  }

  -- `EchoExecutor` of pan-core/src/pipeline.rs; the keys are in the order of the map.
  unfoldable pub echo_executor : Executor W
  unfolding without_invoker
  echo_executor = without_invoker λ capability args w.
      (ok (object (field "args" args (field "executed" (text capability) end))), w)

-- `SessionPipeline`
pub record SessionPipeline (W : Type 0) : Type 0 where
  pub governor : Governor W
  pub executor : Executor W

module _ {W : Type 0} where
  unfoldable pub session_pipeline : CapabilityRegistry → SessionPipeline W
  session_pipeline registry = record {
    governor = resolve_governor registry;
    executor = echo_executor;
  }

  -- The pipeline of a dispatch, without hooks.
  unfoldable pub core_pipeline : CapabilityRegistry → SessionPipeline W → Pipeline W
  core_pipeline registry p = record {
    registry = registry;
    governor = p.governor;
    executor = p.executor;
    hooks = [];
  }

pub data DispatchOutcome : Type 0 where
  passed : List ActionIntent → DispatchOutcome
  failed : ErrorCode → String → DispatchOutcome

unfoldable pub pipeline_err_to_wire : PipelineError → ErrorCode
pipeline_err_to_wire (unresolved _) = unknown_capability
pipeline_err_to_wire (invalid _ _) = invalid_args
pipeline_err_to_wire (rejected _) = provider_failure
pipeline_err_to_wire (execution _ _) = provider_failure

-- `debug` prints a verdict by `{:?}`.
unfoldable pub pipeline_err_message : (Verdict → String) → PipelineError → String
pipeline_err_message debug (unresolved capability) =
    "provider requested `" ⧺ capability ⧺ "` which was never registered"
pipeline_err_message debug (invalid capability reason) =
    "invalid args for `" ⧺ capability ⧺ "`: " ⧺ reason
pipeline_err_message debug (rejected r) =
    "governor rejected `" ⧺ r.capability ⧺ "`: " ⧺ debug r.verdict
pipeline_err_message debug (execution capability reason) =
    "executor failed for `" ⧺ capability ⧺ "`: " ⧺ reason

abbrev pub is_conclude : ActionIntent → Bool
is_conclude (conclude o) = true
is_conclude _ = false

-- The end of `dispatch_decision_async`: a decision without a conclusion continues.
unfoldable pub with_conclusion : List ActionIntent → List ActionIntent
with_conclusion out = if any is_conclude out then out else out ++ conclude continue ∷ []

module _ {W : Type 0} where
  -- The loop over the intents, up to the first `Invoke` that fails.
  unfoldable pub dispatch_intents :
      (Verdict → String)
      → Pipeline W
      → Scope
      → List ActionIntent
      → State W
      → Result (ErrorCode × String) (List ActionIntent) × State W
  unfolding dispatch pipeline_err_to_wire pipeline_err_message
  dispatch_intents debug p scope [] s = (ok [], s)
  dispatch_intents debug p scope (invoke capability args correlation ∷ is) s =
      let (r, t) =
        dispatch p
          (record {
            capability = capability;
            args = args;
            correlation = correlation;
            scope = scope;
          })
          s in
      let (rest, u) = dispatch_intents debug p scope is t in
      elim r [
        | ok _ ↦ (map_ok (λ out. invoke capability args correlation ∷ out) rest, u)
        | err e ↦ (err (pipeline_err_to_wire e, pipeline_err_message debug e), t)
      ]
  dispatch_intents debug p scope (express body ∷ is) s =
      let (rest, u) = dispatch_intents debug p scope is s in
      (map_ok (λ out. express body ∷ out) rest, u)
  dispatch_intents debug p scope (conclude o ∷ is) s =
      let (rest, u) = dispatch_intents debug p scope is s in
      (map_ok (λ out. conclude o ∷ out) rest, u)

  -- `dispatch_decision_async`; the event stream is its own, and ends with it.
  unfoldable pub dispatch_decision :
      (Verdict → String)
      → Decision
      → CapabilityRegistry
      → Scope
      → SessionPipeline W
      → W
      → DispatchOutcome × W
  unfolding dispatch_intents with_conclusion core_pipeline
  dispatch_decision debug decision registry scope p w =
      let (r, s) =
        dispatch_intents debug (core_pipeline registry p) scope decision.intents
          (record { world = w; events = spawn }) in
      (elim r [ ok out ↦ passed (with_conclusion out) | err e ↦ failed e.0 e.1 ], s.world)
