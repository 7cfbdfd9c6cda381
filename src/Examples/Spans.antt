-- ===== src/Examples/Spans.antt =====
-- Spans of the loop, its stall detector and its sources.
use pan.Prelude.{ℕ, ◌*◌, ◌≡◌, ◌≤◌, ◌↔◌, refl, true, [], ◌∷◌, some, none, arith, Option, unwrap_or}
use pan.Schema.{Goal}
use pan.Pipeline.Log.{effects, passes}
use pan.Table
use pan.Registry
use pan.Pipeline.Check.{minimal_schema_check, check_type, has_type, check_required}
use pan.Loop.Enact.{enact}
use pan.Loop.{RunReport, Machine, empty_report}
use pan.Loop.Stall.{feed}
use pan.Loop.Stall.Laws.{fed, streak, feed-streak}
use pan.Loop.Sources.{StreamingObservations, once, streaming}
use pan.Loop.Sources.Laws.{goals_left}
use pan.Loop.Span.{run_span}
use pan.Loop.Span.Fuel.{Ended}
use pan.Loop.Span.Laws.{run_span-streaming_ends, effects-run_span}
use pan.Examples.Data.{goal, other_goal, third_goal, no_context, echo_loop, idle_machine}

feed-streak_example :
    ((feed (fed (("c", "{}") ∷ ("c", "{}") ∷ ("c", "{}") ∷ [])) "c" "{}").0 ≡ true)
    ↔ (3 ≤ streak "c" "{}" (("c", "{}") ∷ ("c", "{}") ∷ ("c", "{}") ∷ []))
feed-streak_example =
    feed-streak "c" "{}" (("c", "{}") ∷ ("c", "{}") ∷ ("c", "{}") ∷ []) (omega arith)

abbrev two_waiting : StreamingObservations
two_waiting = record { rx = other_goal ∷ third_goal ∷ []; pending = none; arrivals = [] }

run_span-streaming_ends_example :
    Ended (
      run_span (8 * goals_left two_waiting) echo_loop streaming no_context two_waiting idle_machine)
run_span-streaming_ends_example =
    run_span-streaming_ends echo_loop no_context two_waiting idle_machine

-- What the span over one goal ends with.
abbrev ending : RunReport × Option Goal × Machine ℕ
ending =
    unwrap_or (run_span 8 echo_loop once no_context (some goal) idle_machine)
      (empty_report, none, idle_machine)

effects-run_span_example : effects "cap.echo" ending.2.events ≤ passes "cap.echo" ending.2.events
unfolding run_span empty_report once effects passes enact Registry.lookup Table.lookup
    minimal_schema_check check_type has_type check_required
effects-run_span_example =
    effects-run_span echo_loop no_context once "cap.echo" 8 (some goal) ending.1 idle_machine
      ending.2 ending.0 (omega arith) refl
