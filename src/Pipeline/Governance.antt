-- ===== src/Pipeline/Governance.antt =====
-- Nothing is executed that the governor did not allow: the results and the world of a dispatch.
use pan.Prelude.{
  ◌≡◌, refl, ap, sym, ◌⊎◌, inl, inr, some, arith, Result, ok, err, Option-cases, Result-cases,
}
use pan.Schema.{Capability}
use pan.Registry
use pan.Governor.{Verdict, allow, deny, require_approval}
use pan.Pipeline.Check.{minimal_schema_check}
use pan.Pipeline.Defs.{EffectRequest, PipelineError, Governed, Effected, Pipeline, State}
use pan.Pipeline.Stages.{pre_invoke_all, ◌>>=◌, resolve, validate, judged, execute, admit, dispatch}

module _ {W : Type 0} (p : Pipeline W) (req : EffectRequest) where
  -- The capability is registered, the arguments fit its schema, and the governor, asked in the world
  -- `w` under the request's scope, allows and leaves `w'`.
  pub record Admits (w w' : W) : Type 0 where
    pub cap : Capability
    pub found : Registry.lookup p.registry req.capability ≡ some cap
    pub fits : minimal_schema_check cap.args_schema req.args ≡ ok tt
    pub allowed : p.governor.govern req.scope req.capability req.args w ≡ (allow, w')

  -- The worlds in which a request may be refused: as it was, or as the governor left it.
  abbrev pub Untouched : W → W → Type 0
  Untouched w w' = (w' ≡ w) ⊎ (w' ≡ (p.governor.govern req.scope req.capability req.args w).1)

  -- How the first three stages end.
  pub data Admission (s : State W) : Result PipelineError Governed × State W → Type 0 where
    admitted :
        {t : State W} → Admits s.world t.world → Admission s (ok (record { request = req }), t)
    refused : {e : PipelineError} {t : State W} → Untouched s.world t.world → Admission s (err e, t)

  judged-Admission :
      (s t : State W) (cap : Capability) (v : Verdict)
      → Registry.lookup p.registry req.capability ≡ some cap
      → minimal_schema_check cap.args_schema req.args ≡ ok tt
      → p.governor.govern req.scope req.capability req.args s.world ≡ (v, t.world)
      → Admission s (judged req v t)
  unfolding judged
  judged-Admission s t cap allow f c g =
      admitted (record { cap = cap; found = f; fits = c; allowed = g })
  judged-Admission s t cap (deny r) f c g = refused (inr (sym (ap (λ (r : Verdict × W). r.1) g)))
  judged-Admission s t cap (require_approval r) f c g =
      refused (inr (sym (ap (λ (r : Verdict × W). r.1) g)))

  pub admit-Admission : (s : State W) → Admission s (admit p req s)
  unfolding admit
  admit-Admission s = elim (Option-cases (Registry.lookup p.registry req.capability)) [
    | inl e ↦ rw (e, resolve) (refused (inl refl))
    | inr (c, e) ↦
        rw (e, resolve)
          (elim (Result-cases (minimal_schema_check c.args_schema req.args)) [
            | inl (u, f) ↦ rw (f, validate) (judged-Admission s _ c _ e f refl)
            | inr (reason, f) ↦ rw (f, validate) (refused (inl refl))
          ])
  ]

  -- What a successful dispatch went through: governance allowed it, no hook refused, and the executor
  -- returned the result, run once in the world that the hooks left.
  pub record Performed (w : W) (eff : Effected) : Type 0 where
    pub governed : W
    pub admits : Admits w governed
    pub ready : W
    pub hooks_pass :
        pre_invoke_all p.hooks req.scope req.capability req.args governed ≡ (ok tt, ready)
    pub ran : (p.executor.execute req.capability req.args ready).0 ≡ ok eff.result
    pub same_capability : eff.capability ≡ req.capability

  run_effect-ok :
      (t u : State W) (eff : Effected)
      → execute p (record { request = req }) t ≡ (ok eff, u)
      → (ready : W) × (pre_invoke_all p.hooks req.scope req.capability req.args t.world
          ≡ (ok tt, ready))
        × ((p.executor.execute req.capability req.args ready).0 ≡ ok eff.result)
        × (eff.capability ≡ req.capability)
  unfolding execute
  run_effect-ok t u eff h =
      let pre = pre_invoke_all p.hooks req.scope req.capability req.args t.world in
      elim (Result-cases pre.0) [
        | inr (reason, e) ↦ ground arith
        | inl (_, e) ↦ (pre.1, ground arith, ground arith, ground arith)
      ]

  after-Admission-Performed :
      {s : State W} {r : Result PipelineError Governed × State W} (u : State W) (eff : Effected)
      → Admission s r
      → ((λ _. r) >>= execute p) s ≡ (ok eff, u)
      → Performed s.world eff
  after-Admission-Performed u eff (admitted {t} a) h =
      let (ready, hooks, ran, same) = run_effect-ok t u eff h in
      record {
        governed = t.world;
        admits = a;
        ready = ready;
        hooks_pass = hooks;
        ran = ran;
        same_capability = same;
      }
  after-Admission-Performed u eff (refused x) h = ground arith

  -- A dispatch that returns an effect was allowed by the governor under the request's own scope, in
  -- the world in which it was made, for a registered capability with fitting arguments; then no hook
  -- refused, and the result is the executor's.
  pub dispatch-Performed :
      (s u : State W) (eff : Effected) → dispatch p req s ≡ (ok eff, u) → Performed s.world eff
  unfolding dispatch
  dispatch-Performed s u eff h = after-Admission-Performed u eff (admit-Admission s) h

  after_refusal :
      {s : State W} {r : Result PipelineError Governed × State W}
      → ((w : W) → ¬ Admits s.world w)
      → Admission s r
      → Untouched s.world (((λ _. r) >>= execute p) s).1.world
        × ((e : PipelineError) × ((((λ _. r) >>= execute p) s).0 ≡ err e))
  after_refusal never (admitted {t} a) = absurd (never t.world a)
  after_refusal never (refused {e} x) = (x, (e, refl))

  -- Where the capability is not registered, the arguments do not fit, or the governor does not allow,
  -- a dispatch fails, and neither a hook nor the executor has touched the world.
  pub dispatch_refused-Untouched :
      (s : State W)
      → ((w : W) → ¬ Admits s.world w)
      → Untouched s.world (dispatch p req s).1.world
        × ((e : PipelineError) × ((dispatch p req s).0 ≡ err e))
  unfolding dispatch
  dispatch_refused-Untouched s never = after_refusal never (admit-Admission s)
