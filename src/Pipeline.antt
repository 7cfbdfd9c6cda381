-- ===== src/Pipeline.antt =====
-- The dispatch pipeline of pan-core/src/pipeline.rs and the invoker of pan-core/src/invoker.rs.
mod Defs
pub mod Check
pub mod Stages
pub mod Invoker
pub mod Governance
pub mod Log
pub use Defs.{
  EffectRequest, InvokeError, not_found, invalid_args, refused, run_failed, GovernRejected,
  PipelineError, unresolved, invalid, rejected, execution, Task, finish, ask, Executor, EffectHook,
  Resolved, Validated, Governed, Effected, Pipeline, State, M,
}
unfoldable pub use Defs.{without_invoker}
