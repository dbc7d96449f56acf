-- ===== src/Scenarios/Memory.antt =====
-- internal/memory/store.go on a session of which one memory is proposed and approved.
use nomici_orchestrator.Common.{
  String, ◌==◌, if◌then◌else◌, ◌≡◌, refl, false, some, List, [], ◌∷◌, ◌++◌, is_empty, trim_space,
}
use nomici_orchestrator.Common.Table
use nomici_orchestrator.Store.{World, ok, err, next, wrong_status, refuse_if, row, ◌>>=◌}
use nomici_orchestrator.SharedContext.Types.{Item}
use nomici_orchestrator.SharedContext.Redaction.{
  Pattern, redact_text, replace_all, prepared_item, prepare_item,
}
use nomici_orchestrator.SharedContext.Items.{insert_item, stamped_item, save_item}
use nomici_orchestrator.Memory.Types.{Proposal, CreateRequest, status_proposed, status_approved}
use nomici_orchestrator.Memory.Proposals.{
  has_id, get, get_by_run_source, item_of, with_status, update_proposal, upsert_proposal,
  new_proposal, set_status, approve, create,
}
use nomici_orchestrator.Memory.Published.{approve-eq-ok, approve-approve}
use nomici_orchestrator.Scenarios.Base.{start}

abbrev patterns : List Pattern
patterns = (λ s. if s == "token sk-1" then "token [REDACTED]" else s) ∷ []

abbrev request : CreateRequest
request = record {
  project_id = "project_1";
  session_id = "session_1";
  run_id = "run_1";
  source_type = "";
  title = "";
  body = "token sk-1";
  artifact_refs = [];
  metadata = "";
}

abbrev proposal : Proposal
proposal = record {
  proposal_id = "memory_0a1b";
  project_id = "project_1";
  session_id = "session_1";
  run_id = "run_1";
  source_type = "session_summary";
  title = "Session memory";
  body = "token sk-1";
  status = status_proposed;
  context_id = "";
  artifact_refs = [];
  metadata = "{}";
  created_at = "2026-01-02T03:04:05Z";
  updated_at = "2026-01-02T03:04:05Z";
}

abbrev proposed : World
proposed = record start { tick = 4; db = record start.db { memory_proposals = proposal ∷ [] } }

proposes : create request start ≡ ok proposal proposed
unfolding create get_by_run_source upsert_proposal new_proposal ◌>>=◌ refuse_if row is_empty
    Table.insert Table.find
proposes = refl

abbrev item : Item
item = record (item_of proposal) {
  context_id = "ctx_0a1b";
  body = "token [REDACTED]";
  created_at = "2026-01-02T03:04:05Z";
  updated_at = "2026-01-02T03:04:05Z";
}

abbrev approved_one : Proposal
approved_one = with_status status_approved "ctx_0a1b" "2026-01-02T03:04:05Z" proposal

abbrev approved : World
approved = record proposed {
  tick = 11;
  db = record proposed.db { memory_proposals = approved_one ∷ []; context_items = item ∷ [] };
}

approves : approve patterns "memory_0a1b" proposed ≡ ok approved_one approved
unfolding approve get set_status update_proposal item_of save_item prepare_item prepared_item
    redact_text replace_all insert_item ◌>>=◌ refuse_if row is_empty trim_space Table.insert
    Table.find Table.update
approves = refl

approve-eq-ok_example :
    (before : Proposal) × (i : Item) × (at : String) × (Table.find
        (has_id "memory_0a1b")
        proposed.db.memory_proposals
      ≡ some before)
    × (before.status ≡ status_proposed)
    × (i ≡ stamped_item (prepared_item patterns (item_of before)) i.context_id i.created_at)
    × (is_empty i.context_id ≡ false)
    × (approved_one ≡ with_status status_approved i.context_id at before)
    × (approved.db
        ≡ update_proposal "memory_0a1b"
            (with_status status_approved i.context_id at)
            (record proposed.db { context_items = proposed.db.context_items ++ i ∷ [] }))
    × (Table.find (has_id "memory_0a1b") approved.db.memory_proposals ≡ some approved_one)
approve-eq-ok_example = approve-eq-ok patterns "memory_0a1b" proposed approves

approve-approve_example :
    approve patterns "memory_0a1b" approved ≡ err (wrong_status status_approved) (next approved)
approve-approve_example = approve-approve patterns "memory_0a1b" proposed approves refl
