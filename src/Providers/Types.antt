-- ===== src/Providers/Types.antt =====
-- internal/providers/types.go, auth.go and catalog.go: the profile of a provider. A cost is the text of
-- its number.
use nomici_orchestrator.Common.{ℤ, String, List}

abbrev pub auth_mode_none : String
auth_mode_none = "none"

abbrev pub provider_vllm : String
provider_vllm = "vllm"

abbrev pub provider_ollama : String
provider_ollama = "ollama"

pub record Profile : Type 0 where
  pub id : String
  pub name : String
  pub kind : String
  pub base_url : String
  pub model : String
  pub api_key_env : String
  pub capabilities : List (String × String)
  pub context_window : ℤ
  pub cost_per_1m_input : String
  pub cost_per_1m_output : String
  pub created_at : String
  pub updated_at : String
