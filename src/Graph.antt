-- ===== src/Graph.antt =====
-- internal/graph: the compiled graph of a specification.
pub mod Types
pub mod Compile
pub mod Json
pub mod Parts
pub mod Encoding
pub mod Fields
pub mod Encoded
pub mod Snapshots
pub mod Closed
pub mod Stored
