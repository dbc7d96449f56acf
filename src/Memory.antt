-- ===== src/Memory.antt =====
-- internal/memory/store.go: what is proposed to be remembered.
pub mod Types
pub mod Proposals
pub mod Published
