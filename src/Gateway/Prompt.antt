-- ===== src/Gateway/Prompt.antt =====
-- internal/gateway/run_handler.go: what a role is told, for a session, a task and services that are not nil.
use Prim.Native.String.{len, slice}
use nomici_orchestrator.Common.{String, List, [], ◌∷◌, map, ltb, if◌then◌else◌, is_empty, ◌^+◌}
use nomici_orchestrator.Store.{Exec, pure, attempt, ◌>>=◌, ◌>>◌}
use nomici_orchestrator.Store.Rows.{Session, Task}
use nomici_orchestrator.SharedContext.Types.{Item, scope_project}
use nomici_orchestrator.SharedContext.Redaction.{join_with}
use nomici_orchestrator.SharedContext.Items.{list_items}
use nomici_orchestrator.Orchestration.Words.{fields}
use nomici_orchestrator.Gateway.Ledger.{
  text, texts, Codec, append_run_ledger_trace, task_metadata_string, task_metadata_string_slice,
  should_offer_tool_protocol,
}
use nomici_orchestrator.Gateway.Lifecycle.{dropped}

-- reusableMemoryBriefing
pub record Briefing : Type 0 where
  pub context_id : String
  pub text : String

briefings_of : List Item → List Briefing
briefings_of [] = []
briefings_of (i ∷ is) =
    let body = join_with " " (fields i.body) in
    let rest = briefings_of is in
    let shown = if ltb 500 (len body) then slice body 0 497 ^+ "..." else body in
    if is_empty body
    then rest
    else record { context_id = i.context_id; text = i.title ^+ ": " ^+ shown } ∷ rest

unfoldable pub reusable_memory_briefings : Session → Exec (List Briefing)
unfolding briefings_of
reusable_memory_briefings session =
    if is_empty session.project_id
    then pure []
    else attempt []
        (do items ← list_items session.project_id scope_project 5; pure (briefings_of items))

unfoldable pub memory_context_ids : List Briefing → List String
memory_context_ids [] = []
memory_context_ids (b ∷ bs) =
    let rest = memory_context_ids bs in if is_empty b.context_id then rest else b.context_id ∷ rest

lines : List String → String
lines [] = ""
lines (s ∷ ss) = "- " ^+ s ^+ "\n" ^+ lines ss

-- a heading and its lines, where there are any
section : String → List String → String
unfolding lines
section heading [] = ""
section heading (s ∷ ss) = heading ^+ lines (s ∷ ss)

abbrev tool_protocol : String
tool_protocol =
    "\n\nTool protocol:\n"
    ^+ "Use the provided native tool calls when the provider supports them. If the provider does not expose native tools, return only compact JSON in this fallback shape:\n"
    ^+ "{\"tool_calls\":[{\"tool_id\":\"read_file\",\"input\":{\"path\":\"README.md\",\"max_bytes\":12000}}]}"
    ^+ "\nAvailable tool_id values: list_files, read_file, write_file, replace_file, present_artifact, bash, search, fetch.\n"
    ^+ "Use normal prose only when you are done with tool use. Mutating tools can pause for user approval and then resume from saved state.\n"

module _ (codec : Codec) where
  trace_briefings : Session → Task → List Briefing → Exec Unit
  unfolding memory_context_ids
  trace_briefings session task [] = pure tt
  trace_briefings session task (b ∷ bs) = dropped (
      append_run_ledger_trace codec session.run_id "memory.context.loaded" task.agent_id (
        ("task_id", text task.task_id) ∷ ("context_ids", texts (memory_context_ids (b ∷ bs))) ∷ []))

  -- rolePrompt; the first argument is skills.Briefings of the configuration
  unfoldable pub role_prompt :
      (List String → List String) → Session → String → Task → List String → Exec String
  unfolding reusable_memory_briefings trace_briefings section
  role_prompt skill_briefings session original task summaries = do
    memory ← reusable_memory_briefings session
    trace_briefings session task memory
    let purpose = task_metadata_string codec task "purpose"
    pure (
        original
        ^+ "\n\nRole task:\n"
        ^+ task.agent_id
        ^+ (if is_empty purpose then "" else "\nPurpose: " ^+ purpose)
        ^+ section "\n\nSelected skill briefings:\n"
            (skill_briefings (task_metadata_string_slice codec task "required_skills"))
        ^+ section "\n\nApproved reusable context:\n" (map (λ (b : Briefing). b.text) memory)
        ^+ section "\n\nPrior role summaries:\n" summaries
        ^+ (if should_offer_tool_protocol codec task then tool_protocol else "")
        ^+ "\nReturn a concise task result with decisions, evidence, and next handoff notes.")
