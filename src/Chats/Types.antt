-- ===== src/Chats/Types.antt =====
-- internal/chats/store.go: the records of chats.
use nomici_orchestrator.Common.{String, List}

abbrev pub thread_status_active : String
thread_status_active = "active"

pub record Thread : Type 0 where
  pub chat_id : String
  pub title : String
  pub status : String
  pub created_at : String
  pub updated_at : String
  pub metadata : String

pub record Message : Type 0 where
  pub message_id : String
  pub chat_id : String
  pub role : String
  pub content : String
  pub run_id : String
  pub session_id : String
  pub created_at : String
  pub metadata : String

pub record Feedback : Type 0 where
  pub feedback_id : String
  pub chat_id : String
  pub message_id : String
  pub score : String
  pub note : String
  pub metadata : String
  pub created_at : String
  pub updated_at : String

pub record Detail : Type 0 where
  pub thread : Thread
  pub messages : List Message
