-- ===== src/Examples.antt =====
-- The theorems at concrete inputs.
mod Data
mod Governors
mod Dispatch
mod Spans
mod Calendar
mod Plugins
mod Wire
mod Daemon
mod Agent
mod Models
mod Paths
mod Files
mod Clients
mod Pool
