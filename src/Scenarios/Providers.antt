-- ===== src/Scenarios/Providers.antt =====
-- internal/providers/store.go on a profile that is saved.
use nomici_orchestrator.Common.{[], pos}
use nomici_orchestrator.Providers.Types.{Profile}
use nomici_orchestrator.Providers.Mapping.{Operation.put, run, Simulates, run-Simulates}
use nomici_orchestrator.Scenarios.Base.{start}

abbrev profile : Profile
profile = record {
  id = "local";
  name = "Local";
  kind = "Ollama";
  base_url = "http://127.0.0.1:11434/v1";
  model = "mistral";
  api_key_env = "";
  capabilities = [];
  context_window = pos 0;
  cost_per_1m_input = "0";
  cost_per_1m_output = "0";
  created_at = "";
  updated_at = "";
}

run-Simulates_example : Simulates (put profile) start (run (put profile) start)
run-Simulates_example = run-Simulates (put profile) start
