-- ===== src/Loop/Span/Keeps.antt =====
-- Invariants of a span: what each stage of a turn keeps, a whole span keeps.
use pan.Prelude.{
  length, ℕ, zero, suc, ◌≡◌, refl, List, [], ◌∷◌, Option, none, some, inl, inr, Option-cases, Bool,
  true, false, Bool-cases, leb, ◌+◌, subst,
}
use pan.Schema.{Goal, Context, Fragment, Decision, Outcome, achieved, abandoned, continue}
use pan.Registry
use pan.Events.{EventKind, effected, decided, run_started, run_concluded}
use pan.Events as Events
use pan.Loop.Defs.{RunEnd, RunReport, empty_report, Observations, Loop, Machine}
use pan.Loop.Enact.{enact}
use pan.Loop.Span.{
  max_tool_steps, Span, Turn, over, again, note, ended, pursue, next, judged, conclude_with,
  feed_back, settle, decide_and_enact, superseded_by_goal, stopped, turn, run_turns, run_span,
}

abbrev pub is_effected : EventKind → Bool
is_effected (effected c v) = true
is_effected _ = false

-- What the loop itself does keeps `I`, and so does `enact`.
pub record Invariant {W : Type 0} (l : Loop W) (I : RunReport → Machine W → Type 0) : Type 0 where
  pub on_note :
      (k : EventKind)
      → is_effected k ≡ false
      → (r : RunReport) (m : Machine W) → I r m
      → I r (note k m)
  pub on_world : (w : W) (r : RunReport) (m : Machine W) → I r m → I r (record m { world = w })
  pub on_end : (e : RunEnd) (r : RunReport) (m : Machine W) → I r m → I (ended e r) m
  pub on_enact :
      (d : Decision) (r : RunReport) (m : Machine W)
      → I r m
      → I (enact l d r m).report (enact l d r m).machine

module _ {W O : Type 0} {l : Loop W} {I : RunReport → Machine W → Type 0}
    (inv : Invariant l I) where
  abbrev pub Kept : Turn W O → Type 0
  Kept (over r o m) = I r m
  Kept (again s) = I s.report s.machine

  next-Kept :
      (obs : Observations O) (ctx : Context) (r : RunReport) (o : O) (m : Machine W)
      → I r m
      → Kept (next l obs ctx r o m)
  unfolding next pursue
  next-Kept obs ctx r o m h = elim (Option-cases (obs.next_goal o).0) [
    | inl e ↦ rw (e, Kept) (inv.on_end _ r m h)
    | inr (g, e) ↦ rw (e, Kept) (inv.on_world _ r m h)
  ]

  judged-kept :
      (s : Span W O) (o : Outcome) (r : RunReport) (m : Machine W)
      → I r m
      → I r (judged l s o r m).1
  unfolding judged
  judged-kept s achieved r m h = elim (Option-cases l.evaluator) [
    | inl e ↦ rw e h
    | inr (f, e) ↦ rw e (inv.on_world _ r m h)
  ]
  judged-kept s abandoned r m h = h
  judged-kept s continue r m h = h

  settle-Kept :
      (obs : Observations O) (ctx : Context) (s : Span W O) (o : Option Outcome)
      (fs : List Fragment) (r : RunReport) (m : Machine W)
      → I r m
      → Kept
          (settle l obs ctx s (record { outcome = o; tool_results = fs; report = r; machine = m }))
  unfolding settle conclude_with feed_back
  settle-Kept obs ctx s (some o) fs r m h =
      inv.on_end _ r _ (inv.on_note _ refl r _ (judged-kept s o r m h))
  settle-Kept obs ctx s none [] r m h = next-Kept obs ctx r s.source m h
  settle-Kept obs ctx s none (f ∷ fs) r m h =
      elim (Bool-cases (leb max_tool_steps (s.tool_steps + 1))) [
        | inl e ↦ rw e (inv.on_end _ r _ (inv.on_note _ refl r m h))
        | inr e ↦ rw e (inv.on_world _ r m h)
      ]

  superseded-Kept :
      (ctx : Context) (s : Span W O) (g : Goal) (o : O) (m : Machine W)
      → I s.report m
      → Kept (superseded_by_goal l ctx s g o m)
  unfolding superseded_by_goal pursue
  superseded-Kept ctx s g o m h =
      let k = Events.abandoned s.current.id g.revision in
      inv.on_world _ s.report (note k m) (inv.on_note k refl s.report m h)

  decide-Kept :
      (obs : Observations O) (ctx : Context) (s : Span W O) (m : Machine W)
      → I s.report m
      → Kept (decide_and_enact l obs ctx s m)
  unfolding decide_and_enact
  decide-Kept obs ctx s m h =
      let (decision, w) =
        l.provider.decide s.current s.working_ctx (Registry.all l.pipeline.registry) m.world in
      let k = decided l.provider.id (length decision.intents) in
      let m' = note k (record m { world = w }) in
      let e = enact l decision s.report m' in
      settle-Kept obs ctx s e.outcome e.tool_results e.report e.machine (
        inv.on_enact decision s.report m'
          (inv.on_note k refl s.report (record m { world = w }) (inv.on_world w s.report m h)))

  turn-Kept :
      (obs : Observations O) (ctx : Context) (s : Span W O)
      → I s.report s.machine
      → Kept (turn l obs ctx s)
  unfolding turn stopped
  turn-Kept obs ctx s h =
      let r = s.report in
      let k = run_started s.current.id s.current.revision in
      let start = inv.on_note k refl r s.machine h in
      elim (Option-cases (obs.superseded s.current s.source).0) [
        | inr (g, e) ↦
            rw (e, Kept)
              (superseded-Kept ctx s g (obs.superseded s.current s.source).1 _
                (inv.on_world _ r (note k s.machine) start))
        | inl e ↦
            rw (e, Kept)
              (elim (Option-cases (l.veto (note k s.machine).world).0) [
                | inr (reason, f) ↦
                    rw (f, Kept)
                      (inv.on_end _ r _
                        (inv.on_note _ refl r _ (inv.on_world _ r (note k s.machine) start)))
                | inl f ↦
                    rw (f, Kept)
                      (decide-Kept obs ctx
                        (record s { source = (obs.superseded s.current s.source).1 }) _
                        (inv.on_world _ r (note k s.machine) start))
              ])
      ]

  abbrev pub Left : Option (RunReport × O × Machine W) → Type 0
  Left none = Unit {0}
  Left (some (r, o, m)) = I r m

  run_turns-Left :
      (fuel : ℕ) (obs : Observations O) (ctx : Context) (t : Turn W O)
      → Kept t
      → Left (run_turns fuel l obs ctx t)
  unfolding run_turns
  run_turns-Left fuel obs ctx (over r o m) h = h
  run_turns-Left zero obs ctx (again s) h = tt
  run_turns-Left (suc fuel) obs ctx (again s) h =
      run_turns-Left fuel obs ctx (turn l obs ctx s) (turn-Kept obs ctx s h)

  -- What holds of the empty report and the machine at the start holds at the end of the span.
  pub run_span-kept :
      (fuel : ℕ) (obs : Observations O) (ctx : Context) (o o' : O) (m m' : Machine W)
      (r : RunReport)
      → I empty_report m
      → run_span fuel l obs ctx o m ≡ some (r, o', m')
      → I r m'
  unfolding run_span
  run_span-kept fuel obs ctx o o' m m' r h e =
      subst Left e (run_turns-Left fuel obs ctx _ (next-Kept obs ctx empty_report o m h))
