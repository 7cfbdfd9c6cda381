-- ===== src/Pipeline/Invoker.antt =====
-- pan-core/src/invoker.rs, and the stages of pan-core/src/pipeline.rs that pass an invoker on.
use pan.Prelude.{String, none, Result, map_ok, map_err}
use pan.Json.{Value}
use pan.Schema.{Scope}
use pan.Governor.{Verdict, allow, deny, require_approval}
use pan.Pipeline.Defs.{
  EffectRequest, InvokeError, not_found, invalid_args, refused, run_failed, PipelineError,
  unresolved, invalid, rejected, execution, Task, finish, ask, Governed, Effected, Pipeline, M,
}
use pan.Pipeline.Stages.{◌>>=◌, run_effect, admit, dispatch}

unfoldable pub denial_reason : Verdict → String
denial_reason (deny reason) = reason
denial_reason (require_approval reason) = reason
denial_reason allow = "allowed"

-- `impl From<PipelineError> for InvokeError`
unfoldable pub to_invoke_error : PipelineError → InvokeError
unfolding denial_reason
to_invoke_error (unresolved capability) = not_found capability
to_invoke_error (invalid capability reason) = invalid_args capability reason
to_invoke_error (rejected r) = refused r.capability (denial_reason r.verdict)
to_invoke_error (execution capability reason) = run_failed capability reason

pub record PipelineInvoker (W : Type 0) : Type 0 where
  pub pipeline : Pipeline W
  pub scope : Scope

module _ {W : Type 0} where
  unfoldable pub new : Pipeline W → Scope → PipelineInvoker W
  new p scope = record { pipeline = p; scope = scope }

  -- `sub`: the same pipeline under another origin.
  unfoldable pub sub : PipelineInvoker W → String → PipelineInvoker W
  sub inv origin = record { pipeline = inv.pipeline; scope = record { origin = origin } }

  -- `ScopedInvoker::invoke`
  unfoldable pub invoke : PipelineInvoker W → String → Value → M W (Result InvokeError Value)
  invoke inv capability args s =
      let (r, t) =
        dispatch inv.pipeline
          (record { capability = capability; args = args; correlation = none; scope = inv.scope })
          s in
      (map_err to_invoke_error (map_ok (λ (e : Effected). e.result) r), t)

  -- An executor's task, with each request answered by the invoker.
  unfoldable pub run_task : PipelineInvoker W → Task W → M W (Result String Value)
  unfolding invoke
  run_task inv (finish r w) s = (r, record s { world = w })
  run_task inv (ask capability args w next) s =
      let (answer, t) = invoke inv capability args (record s { world = w }) in
      run_task inv (next answer t.world) t

  unfoldable pub invoker_call :
      Pipeline W → PipelineInvoker W → Governed → M W (Result String Value)
  unfolding run_task
  invoker_call p inv governed s =
      run_task inv
        (p.executor.execute_with_invoker governed.request.capability governed.request.args s.world)
        s

  unfoldable pub execute_with_invoker :
      Pipeline W → Governed → PipelineInvoker W → M W (Result PipelineError Effected)
  unfolding run_effect invoker_call
  execute_with_invoker p governed inv = run_effect p governed (invoker_call p inv governed)

  unfoldable pub dispatch_with_invoker :
      Pipeline W → EffectRequest → PipelineInvoker W → M W (Result PipelineError Effected)
  unfolding admit execute_with_invoker
  dispatch_with_invoker p request inv =
      admit p request >>= λ governed. execute_with_invoker p governed inv
