-- ===== src/Graph/Types.antt =====
-- internal/graph/types.go: the compiled graph. A map of it is the list of its values: the compiler
-- stores each under its own identifier.
use nomici_orchestrator.Common.{ℤ, String, List}
use nomici_orchestrator.AgentSpec.Types.{Source}

pub record Model : Type 0 where
  pub id : String
  pub profile : String
  pub kind : String
  pub base_url : String
  pub api_key_env : String
  pub model : String
  pub capabilities : List String
  pub context_window : ℤ
  pub source : Source

pub record Agent : Type 0 where
  pub id : String
  pub name : String
  pub description : String
  pub kind : String
  pub model : String
  pub runtime : String
  pub role : String
  pub instructions : String
  pub tools : List String
  pub skills : List String
  pub tags : List String
  pub triggers : List String
  pub capabilities : List (String × String)
  pub source : Source

pub record RuntimeStart : Type 0 where
  pub command : String
  pub executable : String
  pub args : List String

pub record RuntimeInvoke : Type 0 where
  pub executable : String
  pub args : List String
  pub stdin : String

pub record Runtime : Type 0 where
  pub id : String
  pub kind : String
  pub runner : String
  pub workspace : String
  pub start : RuntimeStart
  pub invoke : RuntimeInvoke
  pub env : List (String × String)
  pub env_from : List String
  pub capabilities : List (String × String)
  pub trust : String
  pub timeout_seconds : ℤ
  pub source : Source

pub record Edge : Type 0 where
  pub id : String
  pub from : String
  pub to : String
  pub mode : String
  pub source : Source

pub record Ir : Type 0 where
  pub models : List Model
  pub runtimes : List Runtime
  pub agents : List Agent
  pub edges : List Edge

pub record Snapshot : Type 0 where
  pub snapshot_id : String
  pub schema_version : String
  pub project_id : String
  pub created_at : String
  pub source_hash : String
  pub ir : Ir
