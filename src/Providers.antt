-- ===== src/Providers.antt =====
-- internal/providers/types.go: the kinds of model providers.
pub mod Types
pub mod Profiles
pub mod Valid
pub mod Mapping
use nomici_orchestrator.Common.{
  String, ◌==◌, Bool, List, [], ◌∷◌, if◌then◌else◌, any, trim_space, lower,
}

abbrev pub kind_openai_compatible : String
kind_openai_compatible = "openai_compatible"

abbrev pub kind_anthropic : String
kind_anthropic = "anthropic"

abbrev pub kind_gemini : String
kind_gemini = "gemini"

abbrev pub kind_ollama : String
kind_ollama = "ollama"

abbrev pub kind_codex_cli : String
kind_codex_cli = "codex_cli"

abbrev pub kind_claude_code : String
kind_claude_code = "claude_code"

one_of : String → List String → Bool
one_of s names = any (λ n. s == n) names

-- the switch of NormalizeKind, on the trimmed kind in lower case
named_kind : String → String
unfolding one_of
named_kind kind =
    if one_of kind (
      "openai-compatible" ∷ "openai" ∷ "openai_compatible" ∷ "deepseek" ∷ "openrouter" ∷ "vllm"
      ∷ "other_openai_compatible" ∷ [])
    then kind_openai_compatible
    else if one_of kind ("codex-cli" ∷ "codex" ∷ "codex_cli" ∷ [])
    then kind_codex_cli
    else if one_of kind ("claude-code" ∷ "claude_code" ∷ "claude" ∷ [])
    then kind_claude_code
    else if one_of kind ("google-gemini" ∷ "google_gemini" ∷ "gemini" ∷ [])
    then kind_gemini
    else kind

unfoldable pub normalize_kind : String → String
unfolding named_kind
normalize_kind kind = named_kind (trim_space (lower kind))

unfoldable pub known_kind : String → Bool
unfolding normalize_kind one_of
known_kind kind = one_of (normalize_kind kind) (
    kind_openai_compatible ∷ kind_anthropic ∷ kind_gemini ∷ kind_ollama ∷ kind_codex_cli
    ∷ kind_claude_code ∷ [])

-- the switch of DefaultBaseURL, on the normalised kind
base_url_of : String → String
base_url_of kind =
    if kind == kind_ollama
    then "http://127.0.0.1:11434/v1"
    else if kind == kind_codex_cli
    then "local://codex-cli"
    else if kind == kind_claude_code
    then "local://claude-code"
    else if kind == kind_anthropic
    then "https://api.anthropic.com"
    else if kind == kind_gemini
    then "https://generativelanguage.googleapis.com/v1beta"
    else if kind == kind_openai_compatible
    then "https://api.openai.com/v1"
    else ""

unfoldable pub default_base_url : String → String
unfolding normalize_kind base_url_of
default_base_url kind = base_url_of (normalize_kind kind)

unfoldable pub provider_requires_api_key : String → Bool
unfolding normalize_kind one_of
provider_requires_api_key kind =
    one_of (normalize_kind kind) (kind_openai_compatible ∷ kind_anthropic ∷ kind_gemini ∷ [])
