-- ===== src/Toolbroker.antt =====
-- internal/toolbroker: the tools that agents call.
pub mod Types
pub mod Registry
pub mod Risk
pub mod Records
pub mod Broker
pub mod Locking
pub mod Workspace
pub mod Contained
pub mod Execute
pub mod Agree
pub mod Gate
pub mod Unconsumed
