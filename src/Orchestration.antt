-- ===== src/Orchestration.antt =====
-- internal/orchestration: which way a prompt goes, and which roles of a pack take part.
pub mod Types
pub mod Words
pub mod Route
pub mod Match
pub mod Unique
pub mod Reviewed
pub mod Available
pub mod Partition
