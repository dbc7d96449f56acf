-- ===== src/Scenarios.antt =====
-- Runs of the model on concrete data, a module for each part of the program.
pub mod Base
mod Worklocks
mod Policy
mod Paths
mod Runs
mod Trace
mod Blocked
mod Sandboxes
mod Workspace
mod Locking
mod Toolbroker
mod Executor
mod AgentSpec
mod Graph
mod Memory
mod Orchestration
mod Providers
mod Chats
mod Artifacts
mod Gateway
mod ToolLoop
