-- ===== src/Runs.antt =====
-- internal/runs: the sessions and the tasks of runs.
pub mod Types
pub mod Sessions
pub mod Tasks
pub mod Consistent
pub mod Changes
pub mod Settled
pub mod Refs
