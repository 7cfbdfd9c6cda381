-- ===== src/Loop/Enact.antt =====
-- pan-core/src/loop_engine.rs: `enact`, and what it feeds back to the provider.
pub mod Laws
pub mod Allowed
pub mod Withheld
use pan.Prelude.{
  ℕ, Bool, String, List, [], ◌∷◌, ◌++◌, Option, none, some, Result, ok, err, if◌then◌else◌, ◌⧺◌,
}
use pan.Json.{Value, text, object, Fields, end, field}
use pan.Schema.{Fragment, Outcome, ActionIntent, invoke, express, conclude, Decision}
use pan.Events.{emit, expressed, plugin_error}
use pan.Pipeline.{
  EffectRequest, PipelineError, unresolved, invalid, rejected, execution, Effected, State,
}
use pan.Pipeline.Invoker.{PipelineInvoker, dispatch_with_invoker}
use pan.Pipeline.Invoker
use pan.Loop.Defs.{RunReport, Printing, Loop, Machine}
use pan.Loop.Stall.{feed}

abbrev pub tool_result_channel : String
tool_result_channel = "tool_result"

unfoldable pub pipeline_error_message : Printing → PipelineError → String
pipeline_error_message pr (unresolved _) = "capability not registered"
pipeline_error_message pr (invalid _ reason) = "invalid args: " ⧺ reason
pipeline_error_message pr (rejected r) = "governance rejected: " ⧺ pr.debug r.verdict
pipeline_error_message pr (execution _ reason) = "execution failed: " ⧺ reason

-- The ends of the map, in the order of its keys.
unfoldable pub answer_fields : Result String Value → Fields
answer_fields (ok value) = field "result" value end
answer_fields (err message) = field "error" (text message) end

unfoldable pub correlated : Option String → Fields → Fields
correlated none fs = fs
correlated (some c) fs = field "correlation" (text c) fs

unfoldable pub tool_result_fragment :
    Printing → String → Option String → Value → Result String Value → Fragment
unfolding answer_fields correlated
tool_result_fragment pr capability correlation args result = record {
  channel = tool_result_channel;
  body = pr.to_string (
      object (
        field "args" args
          (field "capability" (text capability) (correlated correlation (answer_fields result)))));
}

unfoldable pub stall_fragment : String → Fragment
stall_fragment capability = record {
  channel = tool_result_channel;
  body =
      "{\"stall\":true,\"capability\":\"" ⧺ capability
      ⧺ "\",\"message\":\"same capability+args repeated 4 times — try a different approach\"}";
}

-- What `enact` changes: the report, the fragments and the outcome so far, and the machine.
pub record Enacting (W : Type 0) : Type 0 where
  pub outcome : Option Outcome
  pub tool_results : List Fragment
  pub report : RunReport
  pub machine : Machine W

module _ {W : Type 0} where
  -- The stall detector's part of an `Invoke`.
  unfoldable pub watch : Loop W → String → Value → Enacting W → Enacting W
  unfolding feed stall_fragment
  watch l capability args e = elim e.machine.stall_detector [
    | none ↦ e
    | some d ↦
        let (stalled, d') = feed d capability (l.printing.to_string args) in
        record e {
          machine = record e.machine { stall_detector = some d' };
          tool_results =
              if stalled then e.tool_results ++ stall_fragment capability ∷ [] else e.tool_results;
        }
  ]

  -- What an `Invoke` reports of the pipeline's answer; `s` is the state that the pipeline left.
  unfoldable pub reported :
      Loop W
      → String
      → Value
      → Option String
      → Enacting W
      → Result PipelineError Effected × State W
      → Enacting W
  unfolding tool_result_fragment pipeline_error_message
  reported l capability args correlation e (ok eff, s) = record e {
    report = record e.report {
      effected = e.report.effected ++ eff.capability ∷ [];
      results = e.report.results ++ (eff.capability, eff.result) ∷ [];
    };
    tool_results =
        e.tool_results
        ++ tool_result_fragment l.printing eff.capability correlation args (ok eff.result) ∷ [];
    machine = record e.machine { world = s.world; events = s.events };
  }
  reported l capability args correlation e (err failure, s) =
      let message = pipeline_error_message l.printing failure in
      record e {
        report = record e.report { failed = e.report.failed ++ capability ∷ [] };
        tool_results =
            e.tool_results
            ++ tool_result_fragment l.printing capability correlation args (err message) ∷ [];
        machine = record e.machine {
          world = s.world;
          events = emit (plugin_error capability message) s.events;
        };
      }

  -- `self.pipeline.dispatch_with_invoker(req, &inv)`
  unfoldable pub dispatched :
      Loop W → String → Value → Option String → Machine W → Result PipelineError Effected × State W
  unfolding dispatch_with_invoker Invoker.new
  dispatched l capability args correlation m =
      dispatch_with_invoker l.pipeline
        (record {
          capability = capability;
          args = args;
          correlation = correlation;
          scope = l.scope;
        })
        (Invoker.new l.pipeline l.scope) (record { world = m.world; events = m.events })

  -- One intent.
  unfoldable pub enact_one : Loop W → ActionIntent → Enacting W → Enacting W
  unfolding watch reported dispatched
  enact_one l (invoke capability args correlation) e =
      let e' = watch l capability args e in
      reported l capability args correlation e'
        (dispatched l capability args correlation e'.machine)
  enact_one l (express body) e = record e {
    report = record e.report { expressed = e.report.expressed ++ body ∷ [] };
    machine = record e.machine {
      events = emit (expressed body) e.machine.events;
      token_tx = elim e.machine.token_tx [ none ↦ none | some sent ↦ some (sent ++ body ∷ []) ];
    };
  }
  enact_one l (conclude o) e = record e { outcome = some o }

  unfoldable pub enact_all : Loop W → List ActionIntent → Enacting W → Enacting W
  unfolding enact_one
  enact_all l [] e = e
  enact_all l (i ∷ is) e = enact_all l is (enact_one l i e)

  unfoldable pub enact : Loop W → Decision → RunReport → Machine W → Enacting W
  unfolding enact_all
  enact l decision report m =
      enact_all l decision.intents
        (record { outcome = none; tool_results = []; report = report; machine = m })
