-- ===== src/Adapters.antt =====
-- internal/adapters/adapter.go: what an adapter for models is asked, and what it answers. The tools, the
-- usage and the errors of an answer are left out where no modelled code reads them.
use nomici_orchestrator.Common.{ℕ, String, List}

abbrev pub status_completed : String
status_completed = "completed"

pub record ModelConfig : Type 0 where
  pub kind : String
  pub base_url : String
  pub model : String

pub record Message : Type 0 where
  pub role : String
  pub content : String

pub record InvokeRequest : Type 0 where
  pub run_id : String
  pub node_id : String
  pub messages : List Message
  pub timeout_ms : ℕ

pub record InvokeResult : Type 0 where
  pub status : String
  pub messages : List Message
