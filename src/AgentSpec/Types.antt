-- ===== src/AgentSpec/Types.antt =====
-- internal/agentspec/types.go, and LoadedSpec of load.go. A value of type `any` is kept as its text.
use nomici_orchestrator.Common.{ℕ, ℤ, String, none, some, List, lookup}

pub record Project : Type 0 where
  pub name : String
  pub description : String

pub record Model : Type 0 where
  pub profile : String
  pub kind : String
  pub base_url : String
  pub api_key_env : String
  pub model : String
  pub capabilities : List String
  pub context_window : ℤ

pub record RuntimeStart : Type 0 where
  pub command : String
  pub executable : String
  pub args : List String

pub record RuntimeInvoke : Type 0 where
  pub executable : String
  pub args : List String
  pub stdin : String

pub record Runtime : Type 0 where
  pub kind : String
  pub runner : String
  pub workspace : String
  pub start : RuntimeStart
  pub invoke : RuntimeInvoke
  pub env : List (String × String)
  pub env_from : List String
  pub capabilities : List (String × String)
  pub trust : String
  pub timeout_seconds : ℤ

pub record Agent : Type 0 where
  pub name : String
  pub description : String
  pub kind : String
  pub model : String
  pub runtime : String
  pub endpoint : String
  pub role : String
  pub instructions : String
  pub tools : List String
  pub skills : List String
  pub tags : List String
  pub triggers : List String
  pub capabilities : List (String × String)
  pub permissions : List (String × String)
  pub runtime_profile : List (String × String)
  pub approval_policy : String
  pub subagents : List String
  pub trust : String

pub record Edge : Type 0 where
  pub from : String
  pub to : String
  pub mode : String

pub record Spec : Type 0 where
  pub version : String
  pub project : Project
  pub models : List (String × Model)
  pub runtimes : List (String × Runtime)
  pub agents : List (String × Agent)
  pub tools : List (String × List (String × String))
  pub mcp : List (String × String)
  pub edges : List Edge
  pub policies : List (String × String)
  pub budgets : List (String × String)
  pub deployment : List (String × String)
  pub profiles : List (String × String)
  pub extensions : List (String × String)

pub record Source : Type 0 where
  pub file : String
  pub path : String
  pub line : ℕ

pub record ValidationError : Type 0 where
  pub code : String
  pub message : String
  pub remediation : String
  pub source : Source

pub record LoadedSpec : Type 0 where
  pub spec : Spec
  pub sources : List (String × Source)
  pub file : String
  pub local_file : String
  pub raw : String

-- LoadedSpec.Source
unfoldable pub source_of : LoadedSpec → String → Source
source_of loaded path = elim (lookup path loaded.sources) [
  | some source ↦ source
  | none ↦ record { file = loaded.file; path = path; line = 0 }
]
