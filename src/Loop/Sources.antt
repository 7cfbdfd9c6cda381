-- ===== src/Loop/Sources.antt =====
-- pan-core/src/loop_engine.rs: the sources of goals `Once` and `StreamingObservations`.
pub mod Laws
use pan.Prelude.{Bool, List, [], ◌∷◌, ◌++◌, Option, none, some, if◌then◌else◌}
use pan.Schema.{Goal, superseded_by}
use pan.Loop.Defs.{Observations}

unfoldable pub once : Observations (Option Goal)
once = record { next_goal = λ o. (o, none); superseded = λ current o. (none, o) }

-- `rx` holds the goals that are in the channel; `arrivals` those that come in during each later wait,
-- until the senders are gone.
pub record StreamingObservations : Type 0 where
  pub rx : List Goal
  pub pending : Option Goal
  pub arrivals : List (List Goal)

-- The goals that arrive while the loop waits are in the channel afterwards.
unfoldable pub wait : StreamingObservations → StreamingObservations
wait o = elim o.arrivals [ [] ↦ o | gs ∷ later ↦ record o { rx = o.rx ++ gs; arrivals = later } ]

-- `self.rx.recv().await`: the first goal to arrive, or `none` once the channel is closed.
abbrev pub recv_from : List (List Goal) → Option Goal × StreamingObservations
recv_from [] = (none, record { rx = []; pending = none; arrivals = [] })
recv_from ([] ∷ later) = recv_from later
recv_from ((g ∷ gs) ∷ later) = (some g, record { rx = gs; pending = none; arrivals = later })

unfoldable pub next_goal : StreamingObservations → Option Goal × StreamingObservations
next_goal o = elim o.pending [
  | some g ↦ (some g, record o { pending = none })
  | none ↦ recv_from (o.rx ∷ o.arrivals)
]

-- The loop of `superseded` over what is in the channel: a goal that is not newer replaces the pending
-- one.
unfoldable pub scan :
    Goal → List Goal → Option Goal → List (List Goal) → Option Goal × StreamingObservations
scan current [] pending later = (none, record { rx = []; pending = pending; arrivals = later })
scan current (g ∷ gs) pending later =
    let rest = scan current gs (some g) later in
    if superseded_by current g
    then (some g, record { rx = gs; pending = none; arrivals = later })
    else rest

unfoldable pub superseded : Goal → StreamingObservations → Option Goal × StreamingObservations
unfolding wait scan
superseded current o = let p = wait o in scan current p.rx p.pending p.arrivals

unfoldable pub streaming : Observations StreamingObservations
unfolding next_goal superseded
streaming = record { next_goal = next_goal; superseded = superseded }
