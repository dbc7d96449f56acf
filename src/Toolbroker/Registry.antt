-- ===== src/Toolbroker/Registry.antt =====
-- internal/toolbroker/registry.go: the tools that there are.
use nomici_orchestrator.Common.{String, ◌==◌, Bool, ◌||◌, List, [], ◌∷◌, str_lt}
use nomici_orchestrator.Common.Table
use nomici_orchestrator.Store.{World, Exec, ok, not_found, raise, pure}
use nomici_orchestrator.Store.Inversion.{pure-eq-ok}
use nomici_orchestrator.Common.Table.Laws.{find-eq-some, All-always}
use nomici_orchestrator.Common.{Option, none, some, ◌≡◌, refl, ap, ◌∙◌, eq_iff, arith}
use nomici_orchestrator.Toolbroker.Types.{
  Definition, risk_low, risk_medium, risk_high, tool_list_files, tool_read_file, tool_write_file,
  tool_replace_file, tool_present_artifact, tool_bash, tool_search, tool_fetch,
}

-- as the source lists them; it sorts them by their identifiers
abbrev pub listed : List Definition
listed =
    record {
      id = tool_list_files;
      description = "List files inside the session workspace.";
      auth = "none";
      network_risk = risk_low;
      filesystem_risk = "read";
      mutation_risk = risk_low;
      allowed_scopes = "workspace" ∷ [];
      redaction_rules = "paths_only" ∷ [];
      execution = "local_sandbox";
    }
    ∷ record {
      id = tool_read_file;
      description = "Read a file inside the session workspace.";
      auth = "none";
      network_risk = risk_low;
      filesystem_risk = "read";
      mutation_risk = risk_low;
      allowed_scopes = "workspace" ∷ [];
      redaction_rules = "content_preview" ∷ [];
      execution = "local_sandbox";
    }
    ∷ record {
      id = tool_write_file;
      description = "Write a file inside the session workspace after approval.";
      auth = "approval";
      network_risk = risk_low;
      filesystem_risk = "write";
      mutation_risk = risk_medium;
      allowed_scopes = "workspace" ∷ [];
      redaction_rules = "content_preview" ∷ [];
      execution = "local_sandbox";
    }
    ∷ record {
      id = tool_replace_file;
      description = "Replace text in a workspace file after approval.";
      auth = "approval";
      network_risk = risk_low;
      filesystem_risk = "write";
      mutation_risk = risk_medium;
      allowed_scopes = "workspace" ∷ [];
      redaction_rules = "content_preview" ∷ [];
      execution = "local_sandbox";
    }
    ∷ record {
      id = tool_present_artifact;
      description = "Register a file or text preview as a session artifact after approval.";
      auth = "approval";
      network_risk = risk_low;
      filesystem_risk = "write";
      mutation_risk = risk_medium;
      allowed_scopes = "workspace" ∷ "artifacts" ∷ [];
      redaction_rules = "content_preview" ∷ [];
      execution = "local_sandbox";
    }
    ∷ record {
      id = tool_bash;
      description = "Run a shell command in the session workspace after approval.";
      auth = "approval";
      network_risk = risk_medium;
      filesystem_risk = "read_write";
      mutation_risk = risk_high;
      allowed_scopes = "workspace" ∷ [];
      redaction_rules = "stdout_stderr_preview" ∷ [];
      execution = "local_sandbox";
    }
    ∷ record {
      id = tool_search;
      description = "Run a configured web search query.";
      auth = "provider_config";
      network_risk = risk_medium;
      filesystem_risk = "none";
      mutation_risk = risk_low;
      allowed_scopes = "network" ∷ [];
      redaction_rules = "query_preview" ∷ [];
      execution = "network_read";
    }
    ∷ record {
      id = tool_fetch;
      description = "Fetch a configured web page reader result.";
      auth = "provider_config";
      network_risk = risk_medium;
      filesystem_risk = "none";
      mutation_risk = risk_low;
      allowed_scopes = "network" ∷ [];
      redaction_rules = "url_preview" ∷ [];
      execution = "network_read";
    }
    ∷ []

unfoldable pub definitions : List Definition
definitions = Table.order_by (λ a b. str_lt a.id b.id) listed

unfoldable pub definition_named : String → Option Definition → Exec Definition
definition_named id none = raise (not_found id)
definition_named id (some d) = pure d

unfoldable pub definition_by_id : String → Exec Definition
unfolding definition_named
definition_by_id id = definition_named id (Table.find (λ d. d.id == id) definitions)

unfoldable pub requires_approval : String → Bool
requires_approval tool_id =
    tool_id == tool_write_file
    || tool_id == tool_replace_file
    || tool_id == tool_present_artifact
    || tool_id == tool_bash

-- A tool that is found has the identifier that was asked for.
pub definition_by_id-id :
    (id : String) (w : World) {d : Definition} {w' : World}
    → definition_by_id id w ≡ ok d w'
    → d.id ≡ id
unfolding definition_by_id definition_named
definition_by_id-id id w {d} {w'} h = go (Table.find (λ d. d.id == id) definitions) refl h
  where
    never : raise {A = Definition} (not_found id) w ≡ ok d w' → ⊥
    never h = unfold raise in ground arith

    go :
        (o : Option Definition)
        → Table.find (λ d. d.id == id) definitions ≡ o
        → definition_named id o w ≡ ok d w'
        → d.id ≡ id
    go none found h = absurd (never h)
    go (some e) found h =
        let same : d ≡ e = (pure-eq-ok e w h).0 in
        ap (λ (x : Definition). x.id) same
        ∙ (eq_iff e.id id).0
            (find-eq-some (λ _. Unit) (λ (x : Definition). x.id == id) definitions found
              (All-always _ (λ _. tt) definitions)).1
