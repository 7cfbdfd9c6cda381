-- ===== src/Agent/Delegate.antt =====
-- pan-agent/src/agent.rs: `cap.agent.delegate`, which runs a child agent. The child's loop lives in the
-- same world as the parent; its event stream, which is discarded, is its own.
pub mod Laws
use Prim.Native.String.{len}
use pan.Prelude.{
  ℕ, zero, suc, ◌+◌, ◌-◌, true, false, String, List, [], ◌∷◌, Option, none, some, Result, ok, err,
  map_err, map_ok, and_then, ensure, ok_or, bind, leb, strip_prefix, is_some, ◌⧺◌,
}
use pan.Json.{Value, null, text, array, object, Items, nil, cons, field, end, get, as_str}
use pan.Schema.{Goal, utterance, Scope, Context}
use pan.Events.{spawn}
use pan.Components.{ComponentRegistry}
use pan.Loop.{Machine, Loop, RunReport, RunEnd, Printing}
use pan.Loop.Sources.{once}
use pan.Loop.Span.{run_span}
use pan.Agent.Manifest.{AgentManifest, load, manifest_error_text}
use pan.Agent.Merge.{TomlValues}
use pan.Agent.Assemble.{AssembledAgent, assemble, assemble_error_text, pipeline_of}

abbrev pub max_delegation_depth : ℕ
max_delegation_depth = 3

-- `s.matches(pattern).count()`: what overlaps a match, `skip` more characters, is passed over.
unfoldable pub count_matches : String → ℕ → String → ℕ
unfolding strip_prefix
count_matches pattern skip String.[] = 0
count_matches pattern (suc n) (String.◌∷◌ c s) = count_matches pattern n s
count_matches pattern zero (String.◌∷◌ c s) =
    elim (is_some (strip_prefix pattern (String.◌∷◌ c s))) [
      | true ↦ suc (count_matches pattern (len pattern - 1) s)
      | false ↦ count_matches pattern 0 s
    ]

-- `as u32` of the count, which is below 2^32 for every text that fits into memory with it.
unfoldable pub depth_of : String → ℕ
unfolding count_matches
depth_of origin = count_matches ".delegated." 0 origin + 1

unfoldable pub child_scope : String → String → Scope
child_scope origin agent_name = record { origin = origin ⧺ ".delegated." ⧺ agent_name }

-- What the crate takes from its surroundings: the files and paths, the toml and json crates, the clock
-- (`as_nanos`, in decimal), and `{}` and `{:?}` of numbers and ends.
pub record Surroundings (W C T : Type 0) : Type 0 where
  pub components : ComponentRegistry W C
  pub values : TomlValues T
  pub from_str : String → Result String (AgentManifest T)
  pub read_to_string : W → String → Result String String
  pub join : String → String → String
  pub nanos : W → String
  pub decimal : ℕ → String
  pub debug_end : RunEnd → String
  pub printing : Printing

-- `self.load_child(name)`, of `agents_dir`
unfoldable pub load_child :
    {W C T : Type 0} → Surroundings W C T → String → String → W → Result String (AssembledAgent W C)
unfolding load assemble manifest_error_text assemble_error_text
load_child env agents_dir name w =
    let path = env.join agents_dir (name ⧺ ".toml") in
    and_then
      (map_err (λ e. "load " ⧺ name ⧺ ": " ⧺ manifest_error_text e)
        (load env.from_str (env.read_to_string w) path))
      λ m.
        map_err (λ e. "assemble " ⧺ name ⧺ ": " ⧺ assemble_error_text e)
          (assemble env.components env.values m)

unfoldable pub child_goal : String → String → Goal
child_goal nanos objective = record {
  id = "delegate-" ⧺ nanos;
  revision = 0;
  objective = objective;
  trigger = utterance "delegate" objective;
}

unfoldable pub child_loop : {W C : Type 0} → Printing → AssembledAgent W C → Scope → Loop W
unfolding pipeline_of
child_loop printing child scope = record {
  provider = child.provider;
  pipeline = pipeline_of child [];
  scope = scope;
  veto = λ w. (none, w);
  compactor = none;
  context_budget = none;
  evaluator = none;
  printing = printing;
}

-- `Context::default()`
abbrev pub no_context : Context
no_context = record { fragments = [] }

abbrev pub fresh : {W : Type 0} → W → Machine W
fresh w = record { world = w; events = spawn; stall_detector = none; token_tx = none }

unfoldable pub texts : List String → Items
texts [] = nil
texts (s ∷ ss) = cons (text s) (texts ss)

-- A pair is an array of two.
unfoldable pub result_items : List (String × Value) → Items
result_items [] = nil
result_items ((c, v) ∷ rs) = cons (array (cons (text c) (cons v nil))) (result_items rs)

unfoldable pub report_value : (RunEnd → String) → RunReport → Value
unfolding texts result_items
report_value debug_end r = object (
    field "end" (elim r.end [ none ↦ null | some e ↦ text (debug_end e) ])
      (field "expressed" (array (texts r.expressed))
        (field "results" (array (result_items r.results)) end)))

module _ {W C T : Type 0} (env : Surroundings W C T) (agents_dir : String) where
  -- A span over one goal takes at most eight turns, and the answer `none` is never given.
  unfoldable pub run_child :
      AssembledAgent W C → Scope → Goal → W → Option (Result String Value × W)
  unfolding child_loop run_span once spawn report_value
  run_child child scope goal w =
      elim (run_span 8 (child_loop env.printing child scope) once no_context (some goal)
        (fresh w)) [
          | none ↦ none
          | some (r, o, m) ↦ some (ok (report_value env.debug_end r), m.world)
        ]

  -- The arguments as `execute_with_invoker` reads them, and its checks before the child runs.
  unfoldable pub admit_child :
      String → Value → W → Result String (String × String × AssembledAgent W C)
  unfolding depth_of load_child
  admit_child origin args w =
      and_then (ok_or "`agent` must be a string" (bind (get args "agent") as_str)) λ agent_name.
        and_then (ok_or "`objective` must be a string" (bind (get args "objective") as_str))
          λ objective.
            and_then
              (ensure (leb (depth_of origin) max_delegation_depth) (
                "delegation depth "
                ⧺ env.decimal (depth_of origin)
                ⧺ " exceeds max "
                ⧺ env.decimal max_delegation_depth))
              λ _.
                map_ok (λ child. (agent_name, objective, child))
                  (load_child env agents_dir agent_name w)

  -- `execute_with_invoker`, where the invoker's origin is `origin`
  unfoldable pub delegate : String → Value → W → Option (Result String Value × W)
  unfolding admit_child run_child child_scope child_goal
  delegate origin args w = elim (admit_child origin args w) [
    | err e ↦ some (err e, w)
    | ok (agent_name, objective, child) ↦
        run_child child (child_scope origin agent_name) (child_goal (env.nanos w) objective) w
  ]
