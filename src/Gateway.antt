-- ===== src/Gateway.antt =====
-- internal/gateway: the server that the console and the command line talk to.
pub mod Semantic
pub mod Intent
pub mod Guarded
pub mod Silent
pub mod Ledger
pub mod Lifecycle
pub mod Completion
pub mod Calls
pub mod Roles
pub mod ToolCalls
pub mod ToolLoop
pub mod Prompt
pub mod Preparation
pub mod Session
pub mod Paused
pub mod Leaves
pub mod Ended
pub mod Refused
pub mod Avoids
pub mod Final
