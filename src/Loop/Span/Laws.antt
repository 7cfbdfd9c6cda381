-- ===== src/Loop/Span/Laws.antt =====
-- What whole spans guarantee, for the sources that the loop comes with.
use pan.Prelude.{ℕ, ◌*◌, ◌≤◌, ◌≡◌, refl, String, Option, none, some, arith}
use pan.Schema.{Goal, Context}
use pan.Pipeline.Log.{effects, passes}
use pan.Loop.Defs.{RunReport, Observations, Loop, Machine, empty_report}
use pan.Loop.Sources.{StreamingObservations, once, streaming}
use pan.Loop.Sources.Laws.{once_left, once-Finite, goals_left, streaming-Finite}
use pan.Loop.Enact.Laws.{names, Agrees-Invariant, Accounted-Invariant}
use pan.Loop.Span.{run_span}
use pan.Loop.Span.Keeps.{run_span-kept}
use pan.Loop.Span.Fuel.{Ended, run_span-Ended}

module _ {W : Type 0} (l : Loop W) (ctx : Context) where
  -- A span over a channel of goals ends, with a reason in its report, within eight turns for each goal
  -- that is pending, in the channel, or still to arrive.
  pub run_span-streaming_ends :
      (o : StreamingObservations) (m : Machine W)
      → Ended (run_span (8 * goals_left o) l streaming ctx o m)
  run_span-streaming_ends o m = run_span-Ended l streaming streaming-Finite ctx _ o m (omega arith)

  -- A span over one goal ends, with a reason in its report, within eight turns.
  pub run_span-once_ends :
      (goal : Option Goal) (m : Machine W) → Ended (run_span 8 l once ctx goal m)
  unfolding once_left
  run_span-once_ends none m = run_span-Ended l once once-Finite ctx 8 none m (omega arith)
  run_span-once_ends (some g) m = run_span-Ended l once once-Finite ctx 8 (some g) m (omega arith)

  -- A span that ends leaves no effect unaccounted for: if the log has a pass of `govern` for each effect of a
  -- capability, it still has at the end of the span, whatever was decided and invoked on the way.
  pub effects-run_span :
      {O : Type 0} (obs : Observations O) (cap : String) (fuel : ℕ) (o o' : O) (m m' : Machine W)
      (r : RunReport)
      → effects cap m.events ≤ passes cap m.events
      → run_span fuel l obs ctx o m ≡ some (r, o', m')
      → effects cap m'.events ≤ passes cap m'.events
  effects-run_span obs cap fuel o o' m m' r h e =
      run_span-kept (Accounted-Invariant l cap) fuel obs ctx o o' m m' r h e

  -- The report of a span lists an effect for each result, with the capability of that result, in the
  -- same order.
  pub effected-run_span :
      {O : Type 0} (obs : Observations O) (fuel : ℕ) (o o' : O) (m m' : Machine W) (r : RunReport)
      → run_span fuel l obs ctx o m ≡ some (r, o', m')
      → r.effected ≡ names r.results
  unfolding empty_report
  effected-run_span obs fuel o o' m m' r e =
      run_span-kept (Agrees-Invariant l) fuel obs ctx o o' m m' r refl e
