-- ===== src/Pipeline/Log/Stages.antt =====
-- The stages of a dispatch, and the requests of the executors that they run, keep the log's account.
use pan.Prelude.{◌≤◌, refl, String, arith, Result, ok, err, inl, inr, Result-cases, Option-cases}
use pan.Json.{Value}
use pan.Registry
use pan.Governor.{Verdict, allow, deny, require_approval}
use pan.Events.{dispatch_started, EventStream}
use pan.Pipeline.Check.{minimal_schema_check}
use pan.Pipeline.Defs.{
  EffectRequest, PipelineError, Task, finish, ask, Governed, Effected, Pipeline, State, M,
}
use pan.Pipeline.Stages.{
  pre_invoke_all, ◌>>=◌, resolve, validate, judged, finished, run_effect, admit, dispatch, execute,
  executor_call,
}
use pan.Pipeline.Invoker.{
  PipelineInvoker, run_task, execute_with_invoker, dispatch_with_invoker, invoker_call,
}
use pan.Pipeline.Log.{
  Gains, Gains-refl, Gains-trans, Gains-then, Gains-emit, Gains-pass, Gains-effect, Gains-less,
  unit, effects, passes,
}

-- How the first stages end: a token has its pass in hand.
data Held {W : Type 0} (cap : String) (s : EventStream)
    : Result PipelineError Governed × State W → Type 0 where
  held :
      {g : Governed} {t : State W}
      → Gains cap (unit cap g.request.capability) s t.events
      → Held cap s (ok g, t)
  dropped : {e : PipelineError} {t : State W} → Gains cap 0 s t.events → Held cap s (err e, t)

module _ {W : Type 0} {cap : String} where
  judged-Held :
      {s : EventStream} (req : EffectRequest) (v : Verdict) (t : State W)
      → Gains cap 0 s t.events
      → Held cap s (judged req v t)
  unfolding judged
  judged-Held req allow t g = held (Gains-trans g (Gains-pass req.capability t.events))
  judged-Held req (deny r) t g = dropped (Gains-then g (Gains-emit _ t.events refl))
  judged-Held req (require_approval r) t g = dropped (Gains-then g (Gains-emit _ t.events refl))

  admit-Held :
      (p : Pipeline W) (req : EffectRequest) (s : State W) → Held cap s.events (admit p req s)
  unfolding admit
  admit-Held p req s =
      let start =
        Gains-emit {cap = cap} (dispatch_started req.capability req.correlation) s.events refl in
      elim (Option-cases (Registry.lookup p.registry req.capability)) [
        | inl e ↦ rw (e, resolve) (dropped (Gains-then start (Gains-emit _ _ refl)))
        | inr (c, e) ↦
            rw (e, resolve)
              (elim (Result-cases (minimal_schema_check c.args_schema req.args)) [
                | inl (u, f) ↦
                    rw (f, validate) (judged-Held req _ _ (Gains-then start (Gains-emit _ _ refl)))
                | inr (reason, f) ↦
                    rw (f, validate) (dropped (Gains-then start (Gains-emit _ _ refl)))
              ])
      ]

  finished-Gains :
      {s : EventStream} (c : String) (r : Result String Value) (t : State W)
      → Gains cap (unit cap c) s t.events
      → Gains cap 0 s (finished c r t).1.events
  unfolding finished
  finished-Gains c (ok v) t g = Gains-effect c v (Gains-then g (Gains-emit _ t.events refl))
  finished-Gains c (err e) t g = Gains-less (Gains-then g (Gains-emit _ t.events refl))

  -- The body of `execute` keeps the account if the executor's call does.
  run_effect-Gains :
      {s : EventStream} (p : Pipeline W) (g : Governed) (run : M W (Result String Value))
      (t : State W)
      → ((u : State W) → Gains cap 0 u.events (run u).1.events)
      → Gains cap (unit cap g.request.capability) s t.events
      → Gains cap 0 s (run_effect p g run t).1.events
  unfolding run_effect
  run_effect-Gains p g run t keeps h =
      let req = g.request in
      let pre = pre_invoke_all p.hooks req.scope req.capability req.args t.world in
      elim (Result-cases pre.0) [
        | inr (reason, e) ↦ rw (e, run_effect) (Gains-less h)
        | inl (_, e) ↦
            rw (e, run_effect) (finished-Gains req.capability _ _ (Gains-then h (keeps _)))
      ]

  execute-Gains :
      {s : EventStream} (p : Pipeline W) (g : Governed) (t : State W)
      → Gains cap (unit cap g.request.capability) s t.events
      → Gains cap 0 s (execute p g t).1.events
  unfolding execute executor_call
  execute-Gains p g t = run_effect-Gains p g (executor_call p g) t λ u. Gains-refl u.events

  after-Held-Gains :
      {s : EventStream} {r : Result PipelineError Governed × State W}
      (next : Governed → M W (Result PipelineError Effected))
      → ((g : Governed) (t : State W)
          → Gains cap (unit cap g.request.capability) s t.events
          → Gains cap 0 s (next g t).1.events)
      → Held cap s r
      → (u : State W) → Gains cap 0 s (((λ _. r) >>= next) u).1.events
  after-Held-Gains next keeps (held {g} {t} h) u = keeps g t h
  after-Held-Gains next keeps (dropped h) u = h

  dispatch-Gains :
      (p : Pipeline W) (req : EffectRequest) (s : State W)
      → Gains cap 0 s.events (dispatch p req s).1.events
  unfolding dispatch
  dispatch-Gains p req s = after-Held-Gains (execute p) (execute-Gains p) (admit-Held p req s) s

  pub run_task-Gains :
      (inv : PipelineInvoker W) (task : Task W) (s : State W)
      → Gains cap 0 s.events (run_task inv task s).1.events
  unfolding run_task
  run_task-Gains inv (finish r w) s = Gains-refl s.events
  run_task-Gains inv (ask capability args w next) s =
      Gains-then (dispatch-Gains inv.pipeline _ _) (run_task-Gains inv (next _ _) _)

  pub dispatch_with_invoker-Gains :
      (p : Pipeline W) (req : EffectRequest) (inv : PipelineInvoker W) (s : State W)
      → Gains cap 0 s.events (dispatch_with_invoker p req inv s).1.events
  unfolding dispatch_with_invoker execute_with_invoker invoker_call
  dispatch_with_invoker-Gains p req inv s =
      after-Held-Gains (λ g. execute_with_invoker p g inv)
        (λ g t. run_effect-Gains p g (invoker_call p inv g) t λ u.
          run_task-Gains inv
            (p.executor.execute_with_invoker g.request.capability g.request.args u.world) u)
        (admit-Held p req s) s

-- A dispatch never breaks the account: if the log has a pass of `govern` for each effect of a
-- capability, it still has after the dispatch, whatever capabilities the executors invoke on the way.
pub effects-dispatch_with_invoker :
    {W : Type 0} (p : Pipeline W) (req : EffectRequest) (inv : PipelineInvoker W) (s : State W)
    (cap : String)
    → effects cap s.events ≤ passes cap s.events
    → effects cap (dispatch_with_invoker p req inv s).1.events
      ≤ passes cap (dispatch_with_invoker p req inv s).1.events
effects-dispatch_with_invoker p req inv s cap h =
    let g = dispatch_with_invoker-Gains {cap = cap} p req inv s in let m = g.margin in omega arith
