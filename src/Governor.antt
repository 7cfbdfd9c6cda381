-- ===== src/Governor.antt =====
-- The governors of pan-core/src/pipeline.rs.
mod Defs
pub mod Scoped
pub mod Glob
pub mod Path
pub mod Chain
pub mod Host
pub use Defs.{Verdict, allow, deny, require_approval, Governor, Verdict-cases}
unfoldable pub use Defs.{allow_all}
