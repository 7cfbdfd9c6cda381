-- ===== src/Loop.antt =====
-- The loop of pan-core/src/loop_engine.rs: observe, decide, enact, commit.
mod Defs
pub mod Stall
pub mod Sources
pub mod Enact
pub mod Span
pub use Defs.{
  RunEnd, concluded, superseded, step_limit, vetoed, unsatisfied, stream_exhausted, RunReport,
  Observations, Provider, Printing, Loop, Machine,
}
unfoldable pub use Defs.{empty_report}
