-- ===== src/AgentSpec.antt =====
-- internal/agentspec: the specification of a project's agents, and what is wrong with one.
pub mod Types
pub mod Decimal
pub mod Checks
pub mod Printed
pub mod WellFormed
