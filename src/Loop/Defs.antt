-- ===== src/Loop/Defs.antt =====
-- pan-core/src/loop_engine.rs: reports, and the plugin slots of the loop.
-- A future that the loop races is a poll: `none` while it is pending. What a dropped `decide` leaves in
-- the world is `cancelled`.
use pan.Prelude.{String, List, [], Option, none}
use pan.Json.{Value}
use pan.Schema.{Goal, Context, Capability, Decision, Outcome, ContextBudget, GoalEval, Scope}
use pan.Governor.{Verdict}
use pan.Events.{EventStream}
use pan.Pipeline.{Pipeline}
use pan.Loop.Stall.{StallDetector}

pub data RunEnd : Type 0 where
  concluded : Outcome → RunEnd
  superseded : RunEnd  -- `Abandoned`
  step_limit : RunEnd
  vetoed : String → RunEnd
  unsatisfied : String → RunEnd
  stream_exhausted : RunEnd

pub record RunReport : Type 0 where
  pub effected : List String
  pub results : List (String × Value)
  pub failed : List String
  pub expressed : List String
  pub end : Option RunEnd

-- `RunReport::default()`
unfoldable pub empty_report : RunReport
empty_report = record { effected = []; results = []; failed = []; expressed = []; end = none }

-- `trait Observations`, for a source of the state `O`. `superseded` is the newer goal, if one is there
-- before the decision is.
pub record Observations (O : Type 0) : Type 0 where
  pub next_goal : O → Option Goal × O
  pub superseded : Goal → O → Option Goal × O

-- `trait Provider`
pub record Provider (W : Type 0) : Type 0 where
  pub id : String
  pub decide : Goal → Context → List Capability → W → Decision × W
  pub cancelled : Goal → Context → List Capability → W → W

-- The printing of values and of verdicts: `to_string` of serde_json, and `{:?}`.
pub record Printing : Type 0 where
  pub to_string : Value → String
  pub debug : Verdict → String

-- `Loop`. The source of vetoes answers with `some` reason once it fires.
pub record Loop (W : Type 0) : Type 0 where
  pub provider : Provider W
  pub pipeline : Pipeline W
  pub scope : Scope
  pub veto : W → Option (Option String) × W
  pub compactor : Option (Context → ContextBudget → W → Context × W)
  pub context_budget : Option ContextBudget
  pub evaluator : Option (Goal → Context → RunReport → W → GoalEval × W)
  pub printing : Printing

-- What a span changes: the world, the event stream, the stall detector, and what went to `token_tx`,
-- the latter two if the loop has them. The pipeline's stream and the loop's are one.
pub record Machine (W : Type 0) : Type 0 where
  pub world : W
  pub events : EventStream
  pub stall_detector : Option StallDetector
  pub token_tx : Option (List String)
