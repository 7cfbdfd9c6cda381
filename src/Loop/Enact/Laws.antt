-- ===== src/Loop/Enact/Laws.antt =====
-- What `enact` keeps: the account of the event log, and the agreement of the two lists of effects.
use pan.Prelude.{
  ◌≤◌, ◌≡◌, refl, String, List, [], ◌∷◌, ◌++◌, Option, none, arith, Result, ok, err, ap, inl, inr,
  Option-cases, false,
}
use pan.Json.{Value}
use pan.Schema.{ActionIntent, invoke, express, conclude}
use pan.Events.{EventKind, expressed}
use pan.Pipeline.{Effected, PipelineError, State}
use pan.Pipeline.Invoker
use pan.Pipeline.Invoker.{dispatch_with_invoker}
use pan.Pipeline.Log.{effects, passes, Gains, Gains-refl, Gains-then, Gains-emit, is_effect_of}
use pan.Pipeline.Log.Stages.{dispatch_with_invoker-Gains}
use pan.Loop.Defs.{RunReport, Loop, Machine}
use pan.Loop.Span.Keeps.{Invariant, is_effected}
use pan.Loop.Span.{note, ended}
use pan.Events.{EventStream}
use pan.Loop.Enact.{Enacting, watch, reported, dispatched, enact_one, enact_all, enact}

-- The capabilities of the results.
abbrev pub names : List (String × Value) → List String
names [] = []
names ((c, v) ∷ rs) = c ∷ names rs

names-append : (rs ss : List (String × Value)) → names (rs ++ ss) ≡ names rs ++ names ss
names-append [] ss = refl
names-append ((c, v) ∷ rs) ss = ap (c ∷◌) (names-append rs ss)

-- `effected` lists the capabilities of `results`.
abbrev pub Agrees : RunReport → Type 0
Agrees r = r.effected ≡ names r.results

module _ {W : Type 0} (l : Loop W) where
  watch-report : (c : String) (a : Value) (e : Enacting W) → (watch l c a e).report ≡ e.report
  unfolding watch
  watch-report c a e = elim (Option-cases e.machine.stall_detector) [
    | inl q ↦ rw q refl
    | inr (d, q) ↦ rw q refl
  ]

  reported-Agrees :
      (c : String) (a : Value) (k : Option String) (e : Enacting W)
      (p : Result PipelineError Effected × State W)
      → Agrees e.report
      → Agrees (reported l c a k e p).report
  unfolding reported
  reported-Agrees c a k e (ok eff, s) h =
      rw (h, names-append e.report.results ((eff.capability, eff.result) ∷ [])) refl
  reported-Agrees c a k e (err x, s) h = h

  enact_one-Agrees :
      (i : ActionIntent) (e : Enacting W) → Agrees e.report → Agrees (enact_one l i e).report
  unfolding enact_one
  enact_one-Agrees (invoke c a k) e h =
      reported-Agrees c a k (watch l c a e) _ (rw (watch-report c a e) h)
  enact_one-Agrees (express body) e h = h
  enact_one-Agrees (conclude o) e h = h

  enact_all-Agrees :
      (is : List ActionIntent) (e : Enacting W) → Agrees e.report → Agrees (enact_all l is e).report
  unfolding enact_all
  enact_all-Agrees [] e h = h
  enact_all-Agrees (i ∷ is) e h = enact_all-Agrees is (enact_one l i e) (enact_one-Agrees i e h)

  pub Agrees-Invariant : Invariant l (λ r m. Agrees r)
  unfolding ended enact
  Agrees-Invariant = record {
    on_note = λ k q r m h. h;
    on_world = λ w r m h. h;
    on_end = λ e r m h. h;
    on_enact = λ d r m h.
        enact_all-Agrees d.intents
          (record { outcome = none; tool_results = []; report = r; machine = m }) h;
  }

module _ {W : Type 0} (l : Loop W) (cap : String) where
  watch-Gains :
      (c : String) (a : Value) (e : Enacting W)
      → Gains cap 0 e.machine.events (watch l c a e).machine.events
  unfolding watch
  watch-Gains c a e = elim (Option-cases e.machine.stall_detector) [
    | inl q ↦ rw q (Gains-refl e.machine.events)
    | inr (d, q) ↦ rw q (Gains-refl e.machine.events)
  ]

  reported-Gains :
      (c : String) (a : Value) (k : Option String) (e : Enacting W)
      (p : Result PipelineError Effected × State W)
      → Gains cap 0 p.1.events (reported l c a k e p).machine.events
  unfolding reported
  reported-Gains c a k e (ok eff, s) = Gains-refl s.events
  reported-Gains c a k e (err x, s) = Gains-emit _ s.events refl

  enact_one-Gains :
      (i : ActionIntent) (e : Enacting W)
      → Gains cap 0 e.machine.events (enact_one l i e).machine.events
  unfolding enact_one dispatched
  enact_one-Gains (invoke c a k) e =
      let e' = watch l c a e in
      Gains-then (watch-Gains c a e) (
        Gains-then
          (dispatch_with_invoker-Gains l.pipeline
            (record { capability = c; args = a; correlation = k; scope = l.scope })
            (Invoker.new l.pipeline l.scope)
            (record { world = e'.machine.world; events = e'.machine.events }))
          (reported-Gains c a k e' (dispatched l c a k e'.machine)))
  enact_one-Gains (express body) e = Gains-emit (expressed body) e.machine.events refl
  enact_one-Gains (conclude o) e = Gains-refl e.machine.events

  enact_all-Gains :
      (is : List ActionIntent) (e : Enacting W)
      → Gains cap 0 e.machine.events (enact_all l is e).machine.events
  unfolding enact_all
  enact_all-Gains [] e = Gains-refl e.machine.events
  enact_all-Gains (i ∷ is) e =
      Gains-then (enact_one-Gains i e) (enact_all-Gains is (enact_one l i e))

  -- The log has a pass of `govern` for each effect of `cap`.
  abbrev pub Accounted : Machine W → Type 0
  Accounted m = effects cap m.events ≤ passes cap m.events

  Gains-Accounted :
      {s t : EventStream}
      → Gains cap 0 s t
      → effects cap s ≤ passes cap s
      → effects cap t ≤ passes cap t
  Gains-Accounted g h = let m = g.margin in omega arith

  pub quiet : (k : EventKind) → is_effected k ≡ false → is_effect_of cap k ≡ false
  quiet k h = ground arith

  pub Accounted-Invariant : Invariant l (λ r m. Accounted m)
  unfolding note enact
  Accounted-Invariant = record {
    on_note = λ k q r m h. Gains-Accounted (Gains-emit k m.events (quiet k q)) h;
    on_world = λ w r m h. h;
    on_end = λ e r m h. h;
    on_enact = λ d r m h.
        Gains-Accounted
          (enact_all-Gains d.intents
            (record { outcome = none; tool_results = []; report = r; machine = m }))
          h;
  }
