-- ===== src/Loop/Enact/Allowed.antt =====
-- Which capabilities the report of a span may list as effected.
use pan.Prelude.{
  ◌≡◌, refl, ap, sym, subst, ℕ, String, List, [], ◌∷◌, ◌++◌, Option, none, some, arith, Result, ok,
  err, All, Option-cases, Result-cases, inl, inr,
}
use pan.Json.{Value}
use pan.Schema.{Context, ActionIntent, invoke, express, conclude}
use pan.Governor.{Verdict, allow}
use pan.Pipeline.{EffectRequest, PipelineError, Governed, Effected, Pipeline, State, M}
use pan.Pipeline.Stages.{◌>>=◌, run_effect, finished, pre_invoke_all}
use pan.Pipeline.Invoker.{
  PipelineInvoker, dispatch_with_invoker, execute_with_invoker, invoker_call,
}
use pan.Pipeline.Invoker
use pan.Pipeline.Governance.{Admission, admitted, refused, admit-Admission}
use pan.Loop.Defs.{RunReport, Observations, Loop, Machine, empty_report}
use pan.Loop.Enact.{Enacting, watch, reported, dispatched, enact_one, enact_all, enact}
use pan.Loop.Span.{ended, run_span}
use pan.Loop.Span.Keeps.{Invariant, run_span-kept}

module _ {W : Type 0} (p : Pipeline W) (req : EffectRequest) where
  run_effect-same :
      (run : M W (Result String Value)) (t u : State W) (eff : Effected)
      → run_effect p (record { request = req }) run t ≡ (ok eff, u)
      → eff.capability ≡ req.capability
  unfolding run_effect finished
  run_effect-same run t u eff h =
      let pre = pre_invoke_all p.hooks req.scope req.capability req.args t.world in
      elim (Result-cases pre.0) [
        | inr (reason, e) ↦ ground arith
        | inl (_, e) ↦
            let ran = run (record t { world = pre.1 }) in
            elim (Result-cases ran.0) [ inl (v, f) ↦ ground arith | inr (reason, f) ↦ ground arith ]
      ]

  after_Admission-allowed :
      (inv : PipelineInvoker W) {s : State W} {r : Result PipelineError Governed × State W}
      (u : State W) (eff : Effected)
      → Admission p req s r
      → ((λ _. r) >>= λ g. execute_with_invoker p g inv) s ≡ (ok eff, u)
      → (eff.capability ≡ req.capability)
        × ((p.governor.govern req.scope req.capability req.args s.world).0 ≡ allow)
  unfolding execute_with_invoker
  after_Admission-allowed inv u eff (admitted {t} a) h = (
    run_effect-same (invoker_call p inv (record { request = req })) t u eff h,
    ap (λ (r : Verdict × W). r.0) a.allowed,
  )
  after_Admission-allowed inv u eff (refused x) h = ground arith

  -- What a dispatch effects is the capability of its request, which the governor allowed.
  pub dispatch_with_invoker-allowed :
      (inv : PipelineInvoker W) (s u : State W) (eff : Effected)
      → dispatch_with_invoker p req inv s ≡ (ok eff, u)
      → (eff.capability ≡ req.capability)
        × ((p.governor.govern req.scope req.capability req.args s.world).0 ≡ allow)
  unfolding dispatch_with_invoker
  dispatch_with_invoker-allowed inv s u eff h =
      after_Admission-allowed inv u eff (admit-Admission p req s) h

All-append_end {ℓ κ} :
    {A : Type ℓ} (P : A → Type κ) (xs : List A) (x : A) → All P xs → P x → All P (xs ++ x ∷ [])
All-append_end P [] x a h = (h, tt)
All-append_end P (y ∷ ys) x (b, a) h = (b, All-append_end P ys x a h)

module _ {W : Type 0} (l : Loop W) (P : String → Type 0)
    (only : (c : String) (a : Value) (w : W)
      → (l.pipeline.governor.govern l.scope c a w).0 ≡ allow
      → P c) where
  reported-Listed :
      (c : String) (a : Value) (k : Option String) (e : Enacting W)
      (r : Result PipelineError Effected × State W)
      → ((eff : Effected) → r.0 ≡ ok eff → P eff.capability)
      → All P e.report.effected
      → All P (reported l c a k e r).report.effected
  unfolding reported
  reported-Listed c a k e (ok eff, s) q h =
      All-append_end P e.report.effected eff.capability h (q eff refl)
  reported-Listed c a k e (err x, s) q h = h

  watch-Listed :
      (c : String) (a : Value) (e : Enacting W)
      → All P e.report.effected
      → All P (watch l c a e).report.effected
  unfolding watch
  watch-Listed c a e h = elim (Option-cases e.machine.stall_detector) [
    | inl q ↦ rw q h
    | inr (d, q) ↦ rw q h
  ]

  dispatched-only :
      (c : String) (a : Value) (k : Option String) (m : Machine W) (eff : Effected)
      → (dispatched l c a k m).0 ≡ ok eff
      → P eff.capability
  unfolding dispatched
  dispatched-only c a k m eff h =
      let r = dispatched l c a k m in
      let (same, allowed) =
        dispatch_with_invoker-allowed l.pipeline
          (record { capability = c; args = a; correlation = k; scope = l.scope })
          (Invoker.new l.pipeline l.scope) (record { world = m.world; events = m.events }) r.1 eff
          (ap (λ x. (x, r.1)) h) in
      subst P (sym same) (only c a m.world allowed)

  enact_one-Listed :
      (i : ActionIntent) (e : Enacting W)
      → All P e.report.effected
      → All P (enact_one l i e).report.effected
  unfolding enact_one
  enact_one-Listed (invoke c a k) e h =
      let e' = watch l c a e in
      reported-Listed c a k e' (dispatched l c a k e'.machine) (dispatched-only c a k e'.machine)
        (watch-Listed c a e h)
  enact_one-Listed (express body) e h = h
  enact_one-Listed (conclude o) e h = h

  enact_all-Listed :
      (is : List ActionIntent) (e : Enacting W)
      → All P e.report.effected
      → All P (enact_all l is e).report.effected
  unfolding enact_all
  enact_all-Listed [] e h = h
  enact_all-Listed (i ∷ is) e h = enact_all-Listed is (enact_one l i e) (enact_one-Listed i e h)

  pub Listed-Invariant : Invariant l (λ r m. All P r.effected)
  unfolding ended enact
  Listed-Invariant = record {
    on_note = λ k q r m h. h;
    on_world = λ w r m h. h;
    on_end = λ e r m h. h;
    on_enact = λ d r m h.
        enact_all-Listed d.intents
          (record { outcome = none; tool_results = []; report = r; machine = m }) h;
  }

  -- Every capability that the report of a span lists as effected is one that the governor may allow
  -- under the scope of the loop.
  pub run_span-Listed :
      {O : Type 0} (obs : Observations O) (ctx : Context) (fuel : ℕ) (o o' : O) (m m' : Machine W)
      (r : RunReport)
      → run_span fuel l obs ctx o m ≡ some (r, o', m')
      → All P r.effected
  unfolding empty_report
  run_span-Listed obs ctx fuel o o' m m' r e =
      run_span-kept Listed-Invariant fuel obs ctx o o' m m' r tt e
