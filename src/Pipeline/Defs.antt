-- ===== src/Pipeline/Defs.antt =====
-- pan-core/src/pipeline.rs: requests, results, and the plugin slots of the pipeline.
-- A plugin's method reads and writes the world `W`; `await` points are not modelled.
use pan.Prelude.{String, List, Option, Result}
use pan.Json.{Value}
use pan.Schema.{Scope}
use pan.Registry.{CapabilityRegistry}
use pan.Governor.{Verdict, Governor}
use pan.Events.{EventStream}

pub record EffectRequest : Type 0 where
  pub capability : String
  pub args : Value
  pub correlation : Option String
  pub scope : Scope

-- `InvokeError` of pan-core/src/invoker.rs
pub data InvokeError : Type 0 where
  not_found : String → InvokeError
  invalid_args refused run_failed : String → String → InvokeError

pub record GovernRejected : Type 0 where
  pub capability : String
  pub verdict : Verdict

pub data PipelineError : Type 0 where
  unresolved : String → PipelineError
  invalid : String → String → PipelineError
  rejected : GovernRejected → PipelineError
  execution : String → String → PipelineError

-- What an executor that holds an invoker does: it ends with a result and a world, or it asks the
-- invoker, in a world that it leaves, and goes on with the answer. The invoker is all that it holds.
pub data Task (W : Type 0) : Type 0 where
  finish : Result String Value → W → Task W
  ask : String → Value → W → (Result InvokeError Value → W → Task W) → Task W

-- `trait Executor`
pub record Executor (W : Type 0) : Type 0 where
  pub execute : String → Value → W → Result String Value × W
  pub execute_with_invoker : String → Value → W → Task W

-- The trait's default `execute_with_invoker`
unfoldable pub without_invoker :
    {W : Type 0} → (String → Value → W → Result String Value × W) → Executor W
without_invoker execute = record {
  execute = execute;
  execute_with_invoker =
      λ capability args w. let (r, w') = execute capability args w in finish r w';
}

-- `trait EffectHook`
pub record EffectHook (W : Type 0) : Type 0 where
  pub pre_invoke : Scope → String → Value → W → Result String (Unit {0}) × W
  pub post_invoke : Scope → String → Value → Result String Value → W → W

-- `Resolved`, `Validated` and `Governed` are the tokens that one stage hands to the next.
pub record Resolved : Type 0 where
  pub request : EffectRequest
  pub args_schema : Value

pub record Validated : Type 0 where
  pub request : EffectRequest

pub record Governed : Type 0 where
  pub request : EffectRequest

pub record Effected : Type 0 where
  pub capability : String
  pub result : Value

pub record Pipeline (W : Type 0) : Type 0 where
  pub registry : CapabilityRegistry
  pub governor : Governor W
  pub executor : Executor W
  pub hooks : List (EffectHook W)

-- What a dispatch changes: the world, and the event stream.
pub record State (W : Type 0) : Type 0 where
  pub world : W
  pub events : EventStream

-- A method of the pipeline.
abbrev pub M : Type 0 → Type 0 → Type 0
M W A = State W → A × State W
