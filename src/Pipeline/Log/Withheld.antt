-- ===== src/Pipeline/Log/Withheld.antt =====
-- A capability that the governor never allows under a scope is not effected, by no request under that scope
-- and by none that an executor makes in answering one.
use pan.Prelude.{
  ◌≡◌, ◌≢◌, refl, subst, ◌∙◌, ap, String, Result, ok, err, inl, inr, Result-cases, Bool-cases,
  false, str_eq, eq_iff,
}
use pan.Json.{Value}
use pan.Schema.{Scope}
use pan.Governor.{Verdict, allow}
use pan.Pipeline.Defs.{
  EffectRequest, PipelineError, Task, finish, ask, Governed, Pipeline, State, M,
}
use pan.Pipeline.Stages.{
  ◌>>=◌, pre_invoke_all, finished, run_effect, executor_call, execute, dispatch,
}
use pan.Pipeline.Invoker
use pan.Pipeline.Invoker.{run_task, invoker_call, execute_with_invoker, dispatch_with_invoker}
use pan.Pipeline.Governance.{Admission, admitted, refused, admit-Admission}
use pan.Pipeline.Log.{effects}
use pan.Pipeline.Log.Confined.{effects-emit, admit-effects}

module _ {W : Type 0} (p : Pipeline W) (scope : Scope) (cap : String)
    (never : (a : Value) (w : W) → (p.governor.govern scope cap a w).0 ≢ allow) where
  finished-effects :
      (c : String) (r : Result String Value) (t : State W)
      → str_eq c cap ≡ false
      → effects cap (finished c r t).1.events ≡ effects cap t.events
  unfolding finished
  finished-effects c (ok v) t n = effects-emit cap _ _ n ∙ effects-emit cap _ t.events refl
  finished-effects c (err e) t n = effects-emit cap _ t.events refl

  run_effect-effects :
      (g : Governed) (run : M W (Result String Value)) (t : State W)
      → ((u : State W) → effects cap (run u).1.events ≡ effects cap u.events)
      → str_eq g.request.capability cap ≡ false
      → effects cap (run_effect p g run t).1.events ≡ effects cap t.events
  unfolding run_effect
  run_effect-effects g run t keeps n =
      let req = g.request in
      let pre = pre_invoke_all p.hooks req.scope req.capability req.args t.world in
      elim (Result-cases pre.0) [
        | inr (reason, e) ↦ rw (e, run_effect) refl
        | inl (_, e) ↦ rw (e, run_effect) (finished-effects req.capability _ _ n ∙ keeps _)
      ]

  -- What follows the first stages of a request under the scope.
  after-effects :
      (call : Governed → M W (Result String Value)) (req : EffectRequest) {s : State W}
      {r : Result PipelineError Governed × State W} (u : State W)
      → ((g : Governed) (v : State W) → effects cap (call g v).1.events ≡ effects cap v.events)
      → req.scope ≡ scope
      → Admission p req s r
      → effects cap (((λ _. r) >>= λ g. run_effect p g (call g)) u).1.events
        ≡ effects cap r.1.events
  after-effects call req {s} u keeps q (refused x) = refl
  after-effects call req {s} u keeps q (admitted {t} a) =
      elim (Bool-cases (str_eq req.capability cap)) [
        | inr n ↦ run_effect-effects (record { request = req }) (call _) t (keeps _) n
        | inl y ↦ absurd (
            never req.args s.world (
              subst (λ c. (p.governor.govern scope c req.args s.world).0 ≡ allow)
                ((eq_iff req.capability cap).0 y)
                (subst (λ o. (p.governor.govern o req.capability req.args s.world).0 ≡ allow) q
                  (ap (λ (v : Verdict × W). v.0) a.allowed))))
      ]

  dispatch-effects :
      (req : EffectRequest) (s : State W)
      → req.scope ≡ scope
      → effects cap (dispatch p req s).1.events ≡ effects cap s.events
  unfolding dispatch execute executor_call
  dispatch-effects req s q =
      after-effects (executor_call p) req s (λ g v. refl) q (admit-Admission p req s)
      ∙ admit-effects cap p req s

  run_task-effects :
      (task : Task W) (s : State W)
      → effects cap (run_task (Invoker.new p scope) task s).1.events ≡ effects cap s.events
  unfolding run_task Invoker.new
  run_task-effects (finish r w) s = refl
  run_task-effects (ask c a w next) s = run_task-effects (next _ _) _ ∙ dispatch-effects _ _ refl

  pub dispatch_with_invoker-effects :
      (req : EffectRequest) (s : State W)
      → req.scope ≡ scope
      → effects cap (dispatch_with_invoker p req (Invoker.new p scope) s).1.events
        ≡ effects cap s.events
  unfolding dispatch_with_invoker execute_with_invoker invoker_call
  dispatch_with_invoker-effects req s q =
      after-effects (invoker_call p (Invoker.new p scope)) req s
        (λ g v.
          run_task-effects
            (p.executor.execute_with_invoker g.request.capability g.request.args v.world) v)
        q (admit-Admission p req s)
      ∙ admit-effects cap p req s
