-- ===== src/Chats.antt =====
-- internal/chats/store.go: chats, their messages and the feedback on them.
pub mod Types
pub mod Records
pub mod Rescored
pub mod Rated
