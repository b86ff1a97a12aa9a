-- ===== src/Claude.antt =====
-- The Claude provider, src/claude.rs: the tracker that reduces complete marker scans.
pub mod Tracker
