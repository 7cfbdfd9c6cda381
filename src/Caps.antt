-- ===== src/Caps.antt =====
-- pan-cap/src: capability components.
pub mod Http
pub mod State
pub mod Glob
pub mod Jail
pub mod Snapshot
pub mod Fs
pub mod Skill
pub mod Process
