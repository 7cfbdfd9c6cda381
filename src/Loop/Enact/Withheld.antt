-- ===== src/Loop/Enact/Withheld.antt =====
-- A capability that the governor never allows under the loop's scope is effected by no span of it, nested
-- requests included.
use pan.Prelude.{
  ◌≡◌, ◌≢◌, refl, ◌∙◌, ℕ, String, List, [], ◌∷◌, none, some, ok, err, Result, inl, inr, Option,
  Option-cases,
}
use pan.Json.{Value}
use pan.Schema.{Context, ActionIntent, invoke, express, conclude}
use pan.Governor.{allow}
use pan.Events.{EventStream, expressed}
use pan.Pipeline.{Effected, PipelineError, State}
use pan.Pipeline.Log.{effects}
use pan.Pipeline.Log.Confined.{effects-emit}
use pan.Pipeline.Log.Withheld.{dispatch_with_invoker-effects}
use pan.Loop.Defs.{RunReport, Observations, Loop, Machine}
use pan.Loop.Enact.{Enacting, watch, reported, dispatched, enact_one, enact_all, enact}
use pan.Loop.Enact.Laws.{quiet}
use pan.Loop.Span.{note, ended, run_span}
use pan.Loop.Span.Keeps.{Invariant, run_span-kept}

module _ {W : Type 0} (l : Loop W) (cap : String)
    (never : (a : Value) (w : W) → (l.pipeline.governor.govern l.scope cap a w).0 ≢ allow) where
  watch-effects :
      (c : String) (a : Value) (e : Enacting W)
      → effects cap (watch l c a e).machine.events ≡ effects cap e.machine.events
  unfolding watch
  watch-effects c a e = elim (Option-cases e.machine.stall_detector) [
    | inl q ↦ rw q refl
    | inr (d, q) ↦ rw q refl
  ]

  reported-effects :
      (c : String) (a : Value) (k : Option String) (e : Enacting W)
      (p : Result PipelineError Effected × State W)
      → effects cap (reported l c a k e p).machine.events ≡ effects cap p.1.events
  unfolding reported
  reported-effects c a k e (ok eff, s) = refl
  reported-effects c a k e (err x, s) = effects-emit cap _ s.events refl

  enact_one-effects :
      (i : ActionIntent) (e : Enacting W)
      → effects cap (enact_one l i e).machine.events ≡ effects cap e.machine.events
  unfolding enact_one dispatched
  enact_one-effects (invoke c a k) e =
      let e' = watch l c a e in
      reported-effects c a k e' (dispatched l c a k e'.machine)
      ∙ dispatch_with_invoker-effects l.pipeline l.scope cap never
          (record { capability = c; args = a; correlation = k; scope = l.scope })
          (record { world = e'.machine.world; events = e'.machine.events }) refl
      ∙ watch-effects c a e
  enact_one-effects (express body) e = effects-emit cap (expressed body) e.machine.events refl
  enact_one-effects (conclude o) e = refl

  enact_all-effects :
      (is : List ActionIntent) (e : Enacting W)
      → effects cap (enact_all l is e).machine.events ≡ effects cap e.machine.events
  unfolding enact_all
  enact_all-effects [] e = refl
  enact_all-effects (i ∷ is) e = enact_all-effects is (enact_one l i e) ∙ enact_one-effects i e

  Withheld-Invariant :
      (start : EventStream) → Invariant l (λ r m. effects cap m.events ≡ effects cap start)
  unfolding note ended enact
  Withheld-Invariant start = record {
    on_note = λ k q r m h. effects-emit cap k m.events (quiet l cap k q) ∙ h;
    on_world = λ w r m h. h;
    on_end = λ e r m h. h;
    on_enact = λ d r m h.
        enact_all-effects d.intents
          (record { outcome = none; tool_results = []; report = r; machine = m })
        ∙ h;
  }

  pub run_span-withheld :
      {O : Type 0} (obs : Observations O) (ctx : Context) (fuel : ℕ) (o o' : O) (m m' : Machine W)
      (r : RunReport)
      → run_span fuel l obs ctx o m ≡ some (r, o', m')
      → effects cap m'.events ≡ effects cap m.events
  run_span-withheld obs ctx fuel o o' m m' r e =
      run_span-kept (Withheld-Invariant m.events) fuel obs ctx o o' m m' r refl e
