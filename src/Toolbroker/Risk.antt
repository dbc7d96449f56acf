-- ===== src/Toolbroker/Risk.antt =====
-- internal/toolbroker/broker.go: how risky a shell command is, by what stands in its text.
use nomici_orchestrator.Common.{
  ℕ, String, Bool, ◌&&◌, ◌||◌, List, [], ◌∷◌, if◌then◌else◌, any, codes, contains, to_lower,
  trim_space,
}
use nomici_orchestrator.Toolbroker.Types.{risk_low, risk_medium, risk_high, risk_critical}

pub record BashRisk : Type 0 where
  pub level : String
  pub reason : String

-- strings.Contains on the lowered command, the part first
unfoldable pub has : String → List ℕ → Bool
has part lower = contains (codes part) lower

abbrev pub dangerous : List String
dangerous =
    "rm -rf /" ∷ "rm -fr /" ∷ "rm -rf ~" ∷ "rm -fr ~" ∷ ":(){" ∷ "dd if=" ∷ "diskutil erase"
    ∷ "security find-generic-password" ∷ "cat ~/.ssh" ∷ "cat ~/.aws" ∷ "cat ~/.config"
    ∷ "chmod -r 777 /" ∷ []

unfoldable pub contains_dangerous_command : List ℕ → Bool
unfolding has
contains_dangerous_command lower = any (λ pattern. has pattern lower) dangerous

unfoldable pub classify_lowered : List ℕ → BashRisk
classify_lowered [] = record { level = risk_low; reason = "empty command" }
classify_lowered (c ∷ cs) =
    let lower = c ∷ cs in
    if contains_dangerous_command lower
    then record {
      level = risk_critical;
      reason = "command contains destructive host or credential access patterns";
    }
    else if has "sudo " lower
        || (has "curl " lower && has "| sh" lower)
        || (has "wget " lower && has "| sh" lower)
        || has "chmod -r 777" lower
        || has "mkfs." lower
    then record {
      level = risk_critical;
      reason = "command can mutate system state outside the workspace";
    }
    else if has "rm " lower
        || has "git push" lower
        || has "npm publish" lower
        || has "deploy" lower
        || has "docker run" lower
        || has "podman run" lower
    then record {
      level = risk_high;
      reason = "command may mutate files, remote state, or external processes";
    }
    else if has "make test" lower
        || has "go test" lower
        || has "pnpm test" lower
        || has "npm test" lower
    then record { level = risk_medium; reason = "command executes project code for verification" }
    else record {
      level = risk_medium;
      reason = "shell command execution requires workspace mediation";
    }

unfoldable pub classify_bash_risk : String → BashRisk
unfolding classify_lowered
classify_bash_risk command = classify_lowered (to_lower (codes (trim_space command)))
