-- ===== src/Agent.antt =====
-- pan-agent/src: the manifest of an agent, and what is assembled from it.
pub mod Manifest
pub mod Merge
pub mod Assemble
pub mod Delegate
pub mod Session
pub mod History
pub mod Command
