-- ===== src/Pipeline/Stages.antt =====
-- pan-core/src/pipeline.rs: the stages of `Pipeline` and their order.
use pan.Prelude.{String, List, [], ◌∷◌, none, some, Result, ok, err}
use pan.Json.{Value}
use pan.Schema.{Scope}
use pan.Registry
use pan.Governor.{Verdict, allow}
use pan.Events.{
  EventKind, emit, stage_completed, dispatch_started, effected, StageStatus, passed, denied, failed,
}
use pan.Pipeline.Check.{minimal_schema_check}
use pan.Pipeline.Defs.{
  EffectRequest, PipelineError, unresolved, invalid, rejected, execution, EffectHook, Resolved,
  Validated, Governed, Effected, Pipeline, State, M,
}

module _ {W : Type 0} where
  -- `self.events.emit(kind)`
  abbrev pub emitting : EventKind → State W → State W
  emitting kind s = record s { events = emit kind s.events }

  unfoldable pub record_stage : String → String → StageStatus → State W → State W
  record_stage stage capability status = emitting (stage_completed stage capability status)

  -- `?` on the result of a stage
  infixr 5 ◌>>=◌
  abbrev pub ◌>>=◌ :
      {A B : Type 0}
      → M W (Result PipelineError A)
      → (A → M W (Result PipelineError B))
      → M W (Result PipelineError B)
  ◌>>=◌ m f s = let (r, s') = m s in elim r [ ok a ↦ f a s' | err e ↦ (err e, s') ]

  unfoldable pub resolve : Pipeline W → EffectRequest → M W (Result PipelineError Resolved)
  unfolding record_stage
  resolve p request s = elim (Registry.lookup p.registry request.capability) [
    | some cap ↦ (ok (record { request = request; args_schema = cap.args_schema }), s)
    | none ↦
        (err (unresolved request.capability), record_stage "resolve" request.capability failed s)
  ]

  unfoldable pub validate : Pipeline W → Resolved → M W (Result PipelineError Validated)
  unfolding record_stage
  validate p resolved s =
      let cap = resolved.request.capability in
      elim (minimal_schema_check resolved.args_schema resolved.request.args) [
        | err reason ↦ (err (invalid cap reason), record_stage "validate" cap failed s)
        | ok _ ↦ (ok (record { request = resolved.request }), record_stage "validate" cap passed s)
      ]

  -- The end of `govern`: only `allow` yields the token.
  unfoldable pub judged : EffectRequest → Verdict → M W (Result PipelineError Governed)
  unfolding record_stage
  judged request allow s =
      (ok (record { request = request }), record_stage "govern" request.capability passed s)
  judged request v s = (
    err (rejected (record { capability = request.capability; verdict = v })),
    record_stage "govern" request.capability denied s,
  )

  unfoldable pub govern : Pipeline W → Validated → M W (Result PipelineError Governed)
  unfolding judged
  govern p validated s =
      let req = validated.request in
      let (v, w) = p.governor.govern req.scope req.capability req.args s.world in
      judged req v (record s { world = w })

  -- The loop over the `pre_invoke` hooks, up to the first that refuses.
  unfoldable pub pre_invoke_all :
      List (EffectHook W) → Scope → String → Value → W → Result String (Unit {0}) × W
  pre_invoke_all [] scope cap args w = (ok tt, w)
  pre_invoke_all (h ∷ hs) scope cap args w =
      let (r, w') = h.pre_invoke scope cap args w in
      let rest = pre_invoke_all hs scope cap args w' in
      elim r [ ok _ ↦ rest | err reason ↦ (err reason, w') ]

  unfoldable pub post_invoke_all :
      List (EffectHook W) → Scope → String → Value → Result String Value → W → W
  post_invoke_all [] scope cap args result w = w
  post_invoke_all (h ∷ hs) scope cap args result w =
      post_invoke_all hs scope cap args result (h.post_invoke scope cap args result w)

  -- The end of `execute`: what is recorded and returned for the executor's result.
  unfoldable pub finished : String → Result String Value → M W (Result PipelineError Effected)
  unfolding record_stage
  finished cap (ok value) s = (
    ok (record { capability = cap; result = value }),
    emitting (effected cap value) (record_stage "execute" cap passed s),
  )
  finished cap (err reason) s = (err (execution cap reason), record_stage "execute" cap failed s)

  -- The body that `execute` and `execute_with_invoker` share: `run` is the executor's call.
  unfoldable pub run_effect :
      Pipeline W → Governed → M W (Result String Value) → M W (Result PipelineError Effected)
  unfolding pre_invoke_all post_invoke_all finished
  run_effect p governed run s =
      let req = governed.request in
      let (pre, w) = pre_invoke_all p.hooks req.scope req.capability req.args s.world in
      elim pre [
        | err reason ↦ (err (execution req.capability reason), record s { world = w })
        | ok _ ↦
            let (result, t) = run (record s { world = w }) in
            finished req.capability result (record t {
              world = post_invoke_all p.hooks req.scope req.capability req.args result t.world;
            })
      ]

  unfoldable pub executor_call : Pipeline W → Governed → M W (Result String Value)
  executor_call p governed s =
      let (r, w) = p.executor.execute governed.request.capability governed.request.args s.world in
      (r, record s { world = w })

  unfoldable pub execute : Pipeline W → Governed → M W (Result PipelineError Effected)
  unfolding run_effect executor_call
  execute p governed = run_effect p governed (executor_call p governed)

  -- `resolve`, `validate` and `govern` in the order of `dispatch`, behind its first event.
  unfoldable pub admit : Pipeline W → EffectRequest → M W (Result PipelineError Governed)
  unfolding resolve validate govern
  admit p request s =
      (resolve p request >>= λ resolved. validate p resolved >>= λ validated. govern p validated)
        (emitting (dispatch_started request.capability request.correlation) s)

  unfoldable pub dispatch : Pipeline W → EffectRequest → M W (Result PipelineError Effected)
  unfolding admit execute
  dispatch p request = admit p request >>= λ governed. execute p governed
