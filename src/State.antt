-- ===== src/State.antt =====
-- The per-server reducer of src/state.rs: one child for each group of its methods.
pub mod Record
pub mod Pending
pub mod Root
pub mod Attention
pub mod Ready
pub mod Json
pub mod Reduce
pub mod View
pub mod Invariant
pub mod Frame
pub mod Seen
pub mod Updates
