-- ===== src/SharedContext.antt =====
-- internal/sharedcontext: what agents share with one another.
pub mod Types
pub mod Redaction
pub mod Items
pub mod Saved
