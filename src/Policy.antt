-- ===== src/Policy.antt =====
-- internal/policy: whether an action is allowed, the approvals that it may need, and what becomes of
-- them.
pub mod Types
pub mod Classify
pub mod Service
