-- ===== src/Daemon.antt =====
-- The daemon that serves the Soul Protocol: pan-daemon/src.
pub mod Mind
pub mod Wire
pub mod Dispatch
pub mod Session
pub mod Drive
