-- ===== src/Pipeline/Log/Confined.antt =====
-- An executor whose invoker has no authority effects nothing through it.
use pan.Prelude.{
  ◌≡◌, ◌≢◌, refl, ◌∙◌, ap, String, arith, Result, inl, inr, Option-cases, Result-cases, false,
}
use pan.Json.{Value}
use pan.Registry
use pan.Governor.{Verdict, allow, deny, require_approval}
use pan.Events.{EventKind, EventStream, emit, dispatch_started}
use pan.Pipeline.Check.{minimal_schema_check}
use pan.Pipeline.Defs.{EffectRequest, PipelineError, Task, finish, ask, Governed, Pipeline, State}
use pan.Pipeline.Stages.{◌>>=◌, resolve, validate, judged, execute, admit, dispatch}
use pan.Pipeline.Invoker.{PipelineInvoker, run_task}
use pan.Pipeline.Governance.{Admits, Admission, admitted, refused, admit-Admission}
use pan.Pipeline.Log.{effects, is_effect_of}

pub effects-emit :
    (cap : String) (kind : EventKind) (s : EventStream)
    → is_effect_of cap kind ≡ false
    → effects cap (emit kind s) ≡ effects cap s
unfolding emit effects
effects-emit cap kind s h = ground arith

module _ {W : Type 0} (cap : String) where
  judged-effects :
      (req : EffectRequest) (v : Verdict) (s : State W)
      → effects cap (judged req v s).1.events ≡ effects cap s.events
  unfolding judged
  judged-effects req allow s = effects-emit cap _ s.events refl
  judged-effects req (deny r) s = effects-emit cap _ s.events refl
  judged-effects req (require_approval r) s = effects-emit cap _ s.events refl

  -- The stages before execution emit no effect.
  pub admit-effects :
      (p : Pipeline W) (req : EffectRequest) (s : State W)
      → effects cap (admit p req s).1.events ≡ effects cap s.events
  unfolding admit
  admit-effects p req s =
      let begun =
        effects-emit cap (dispatch_started req.capability req.correlation) s.events refl in
      elim (Option-cases (Registry.lookup p.registry req.capability)) [
        | inl e ↦ rw (e, resolve) (effects-emit cap _ _ refl ∙ begun)
        | inr (c, e) ↦
            rw (e, resolve)
              (elim (Result-cases (minimal_schema_check c.args_schema req.args)) [
                | inl (u, f) ↦
                    rw (f, validate) (judged-effects req _ _ ∙ effects-emit cap _ _ refl ∙ begun)
                | inr (reason, f) ↦ rw (f, validate) (effects-emit cap _ _ refl ∙ begun)
              ])
      ]

  after_refusal-state :
      (p : Pipeline W) (req : EffectRequest) {s : State W}
      {r : Result PipelineError Governed × State W}
      → ((w : W) → ¬ Admits p req s.world w)
      → Admission p req s r
      → (((λ _. r) >>= execute p) s).1 ≡ r.1
  after_refusal-state p req never (admitted {t} a) = absurd (never t.world a)
  after_refusal-state p req never (refused x) = refl

  dispatch_refused-effects :
      (p : Pipeline W) (req : EffectRequest) (s : State W)
      → ((w : W) → ¬ Admits p req s.world w)
      → effects cap (dispatch p req s).1.events ≡ effects cap s.events
  unfolding dispatch
  dispatch_refused-effects p req s never =
      ap (λ (t : State W). effects cap t.events)
        (after_refusal-state p req never (admit-Admission p req s))
      ∙ admit-effects p req s

-- An executor that holds an invoker under a scope to which the governor never allows anything emits
-- no effect, whatever it asks for.
pub run_task-confined :
    {W : Type 0} (inv : PipelineInvoker W) (task : Task W) (s : State W) (cap : String)
    → ((c : String) (a : Value) (w : W) → (inv.pipeline.governor.govern inv.scope c a w).0 ≢ allow)
    → effects cap (run_task inv task s).1.events ≡ effects cap s.events
unfolding run_task
run_task-confined inv (finish r w) s cap never = refl
run_task-confined inv (ask c a w next) s cap never =
    run_task-confined inv (next _ _) _ cap never
    ∙ dispatch_refused-effects cap inv.pipeline _ _
        λ u x. never c a w (ap (λ (r : Verdict × _). r.0) x.allowed)
