-- ===== src/Loop/Span.antt =====
-- pan-core/src/loop_engine.rs: `run_span`, one turn of its inner loop at a time.
pub mod Keeps
pub mod Fuel
pub mod Laws
use pan.Prelude.{
  ℕ, zero, suc, ◌+◌, String, List, [], ◌∷◌, ◌++◌, Option, none, some, Result, ok, err,
  if◌then◌else◌, leb, ltb, length, unwrap_or,
}
use pan.Schema.{
  Goal, Context, Fragment, Capability, Decision, Outcome, achieved, abandoned, GoalEval,
  unsatisfied, ContextBudget, estimate_tokens,
}
use pan.Registry
use pan.Events.{EventKind, emit, run_started, decided, run_concluded}
use pan.Events as Events
use pan.Loop.Defs.{
  RunEnd, concluded, step_limit, vetoed, stream_exhausted, RunReport, empty_report, Observations,
  Loop, Machine,
}
use pan.Loop.Defs as Defs
use pan.Loop.Enact.{Enacting, enact}

-- `MAX_TOOL_STEPS`
abbrev pub max_tool_steps : ℕ
max_tool_steps = 8

-- The variables of `run_span`, with the source and the machine.
pub record Span (W O : Type 0) : Type 0 where
  pub current : Goal
  pub working_ctx : Context
  pub tool_steps : ℕ
  pub report : RunReport
  pub source : O
  pub machine : Machine W

-- How a turn ends: the span is over, or the loop goes on.
pub data Turn (W O : Type 0) : Type 0 where
  over : RunReport → O → Machine W → Turn W O
  again : Span W O → Turn W O

unfoldable pub note : {W : Type 0} → EventKind → Machine W → Machine W
note kind m = record m { events = emit kind m.events }

unfoldable pub ended : RunEnd → RunReport → RunReport
ended reason report = record report { end = some reason }

-- The context, compacted if it exceeds the budget.
unfoldable pub compacted : {W : Type 0} → Loop W → Context → W → Context × W
compacted l ctx w = elim l.compactor [
  | none ↦ (ctx, w)
  | some compact ↦ elim l.context_budget [
    | none ↦ (ctx, w)
    | some budget ↦
        if ltb budget.max_tokens (estimate_tokens ctx) then compact ctx budget w else (ctx, w)
  ]
]

module _ {W O : Type 0} where
  -- `continue 'goal`: a goal starts from the base context.
  unfoldable pub pursue : Loop W → Context → Goal → RunReport → O → Machine W → Span W O
  unfolding compacted
  pursue l ctx goal report o m =
      let (working, w) = compacted l ctx m.world in
      record {
        current = goal;
        working_ctx = working;
        tool_steps = 0;
        report = report;
        source = o;
        machine = record m { world = w };
      }

  -- The next goal of the source, if there is one.
  unfoldable pub next : Loop W → Observations O → Context → RunReport → O → Machine W → Turn W O
  unfolding pursue ended
  next l obs ctx report o m =
      let (found, o') = obs.next_goal o in
      elim found [
        | some g ↦ again (pursue l ctx g report o' m)
        | none ↦ over (ended stream_exhausted report) o' m
      ]

  -- What the evaluator, if the loop has one, makes of an achieved goal.
  unfoldable pub judged : Loop W → Span W O → Outcome → RunReport → Machine W → RunEnd × Machine W
  judged l s achieved report m = elim l.evaluator [
    | none ↦ (concluded achieved, m)
    | some evaluate ↦
        let (eval, w) = evaluate s.current s.working_ctx report m.world in
        (
          elim eval [ unsatisfied reason ↦ Defs.unsatisfied reason | _ ↦ concluded achieved ],
          record m { world = w },
        )
  ]
  judged l s o report m = (concluded o, m)

  unfoldable pub conclude_with : Loop W → Span W O → Outcome → RunReport → Machine W → Turn W O
  unfolding judged note ended
  conclude_with l s o report m =
      let (reason, m') = judged l s o report m in
      over (ended reason report) s.source (note (run_concluded s.current.id o) m')

  -- The ReAct step: the results go into the working context of the same goal.
  unfoldable pub feed_back : Loop W → Span W O → List Fragment → RunReport → Machine W → Turn W O
  unfolding compacted note ended
  feed_back l s results report m =
      let steps = s.tool_steps + 1 in
      let (working, w) =
        compacted l (record s.working_ctx { fragments = s.working_ctx.fragments ++ results })
          m.world in
      if leb max_tool_steps steps
      then over (ended step_limit report) s.source (note (run_concluded s.current.id abandoned) m)
      else again (record s {
        working_ctx = working;
        tool_steps = steps;
        report = report;
        machine = record m { world = w };
      })

  -- What follows from what was enacted.
  unfoldable pub settle : Loop W → Observations O → Context → Span W O → Enacting W → Turn W O
  unfolding next conclude_with feed_back
  settle l obs ctx s e = elim e.outcome [
    | some o ↦ conclude_with l s o e.report e.machine
    | none ↦ elim e.tool_results [
      | [] ↦ next l obs ctx e.report s.source e.machine
      | f ∷ fs ↦ feed_back l s (f ∷ fs) e.report e.machine
    ]
  ]

  -- The branch of `select!` that the decision takes.
  unfoldable pub decide_and_enact :
      Loop W → Observations O → Context → Span W O → Machine W → Turn W O
  unfolding note settle
  decide_and_enact l obs ctx s m =
      let (decision, w) =
        l.provider.decide s.current s.working_ctx (Registry.all l.pipeline.registry) m.world in
      let m' = note (decided l.provider.id (length decision.intents)) (record m { world = w }) in
      settle l obs ctx s (enact l decision s.report m')

  -- The other branches: a newer goal, and a veto.
  unfoldable pub superseded_by_goal : Loop W → Context → Span W O → Goal → O → Machine W → Turn W O
  unfolding pursue note
  superseded_by_goal l ctx s newer o m =
      again (pursue l ctx newer s.report o (note (Events.abandoned s.current.id newer.revision) m))

  unfoldable pub stopped : Span W O → Option String → O → Machine W → Turn W O
  unfolding note ended
  stopped s reason o m =
      over (ended (vetoed (unwrap_or reason "veto fired")) s.report) o
        (note (Events.abandoned s.current.id s.current.revision) m)

  -- One turn: the biased race of supersession, veto and decision, and what follows.
  unfoldable pub turn : Loop W → Observations O → Context → Span W O → Turn W O
  unfolding note superseded_by_goal stopped decide_and_enact
  turn l obs ctx s =
      let m = note (run_started s.current.id s.current.revision) s.machine in
      let caps = Registry.all l.pipeline.registry in
      let (newer, o) = obs.superseded s.current s.source in
      let dropped = record m {
        world = l.provider.cancelled s.current s.working_ctx caps m.world;
      } in
      let (veto, w) = l.veto m.world in
      elim newer [
        | some g ↦ superseded_by_goal l ctx s g o dropped
        | none ↦ elim veto [
          | some reason ↦
              stopped s reason o
                (record dropped { world = l.provider.cancelled s.current s.working_ctx caps w })
          | none ↦ decide_and_enact l obs ctx (record s { source = o }) (record m { world = w })
        ]
      ]

  -- The loop, for at most `fuel` turns.
  unfoldable pub run_turns :
      ℕ → Loop W → Observations O → Context → Turn W O → Option (RunReport × O × Machine W)
  unfolding turn
  run_turns fuel l obs ctx (over report o m) = some (report, o, m)
  run_turns zero l obs ctx (again s) = none
  run_turns (suc fuel) l obs ctx (again s) = run_turns fuel l obs ctx (turn l obs ctx s)

  unfoldable pub run_span :
      ℕ → Loop W → Observations O → Context → O → Machine W → Option (RunReport × O × Machine W)
  unfolding next run_turns
  run_span fuel l obs ctx o m = run_turns fuel l obs ctx (next l obs ctx empty_report o m)
