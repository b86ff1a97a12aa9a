-- ===== src/Monitor.antt =====
-- The monitor: src/monitor.rs.
pub mod Pass
pub mod Backoff
pub mod Sink
pub mod Live
pub mod Connection
pub mod Gate
pub mod Merge
