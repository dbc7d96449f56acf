-- ===== src/Memory/Proposals.antt =====
-- internal/memory/store.go: the operations on memory proposals. A limit that is not positive is 0
-- here.
use mathlib.Core.Option
use nomici_orchestrator.Common.{
  ℕ, String, ◌==◌, Bool, not, ◌&&◌, ◌||◌, Option, some, List, [], ◌∷◌, if◌then◌else◌, any, take,
  is_empty, str_lt, ◌=ℕ=◌,
}
use nomici_orchestrator.Common.Table
use nomici_orchestrator.Store.{
  Db, required, wrong_status, Exec, now, new_id, exec, exec_insert, query, refuse_if, row, ◌>>=◌,
  ◌>>◌,
}
use nomici_orchestrator.SharedContext.Types.{
  Item, scope_project, kind_run_summary, confidence_generated, sensitivity_normal, status_active,
}
use nomici_orchestrator.SharedContext.Redaction.{Pattern}
use nomici_orchestrator.SharedContext.Items.{save_item}
use nomici_orchestrator.Memory.Types.{
  Proposal, CreateRequest, status_proposed, status_approved, status_rejected, status_deleted,
}

abbrev pub has_id : String → Proposal → Bool
has_id proposal_id p = p.proposal_id == proposal_id

-- the columns of the unique index idx_memory_proposals_run_source
abbrev pub of_source : String → String → Proposal → Bool
of_source run_id source_type p = p.run_id == run_id && p.source_type == source_type

abbrev pub clash : Proposal → Proposal → Bool
clash a b = a.proposal_id == b.proposal_id

-- the DO UPDATE SET of Create
abbrev pub refreshed : Proposal → Proposal → Proposal
refreshed new old = record old {
  title = new.title;
  body = new.body;
  artifact_refs = new.artifact_refs;
  metadata = new.metadata;
  updated_at = new.updated_at;
}

-- INSERT … ON CONFLICT(run_id, source_type) DO UPDATE: a row with the same run and source is
-- refreshed; otherwise the primary key may refuse the new row.
unfoldable pub upsert_proposal : Proposal → Db → Option Db
upsert_proposal p db =
    if any (of_source p.run_id p.source_type) db.memory_proposals
    then some (record db {
      memory_proposals =
          Table.update (of_source p.run_id p.source_type) (refreshed p) db.memory_proposals;
    })
    else Option.map (λ rows. record db { memory_proposals = rows })
        (Table.insert clash p db.memory_proposals)

unfoldable pub get : String → Exec Proposal
get proposal_id = do
  found ← query (λ db. Table.find (has_id proposal_id) db.memory_proposals)
  row found

unfoldable pub get_by_run_source : String → String → Exec Proposal
get_by_run_source run_id source_type = do
  found ← query (λ db. Table.find (of_source run_id source_type) db.memory_proposals)
  row found

abbrev pub source_of_request : CreateRequest → String
source_of_request request =
    if is_empty request.source_type then "session_summary" else request.source_type

unfoldable pub new_proposal : CreateRequest → String → String → Proposal
new_proposal request at proposal_id = record {
  proposal_id = proposal_id;
  project_id = request.project_id;
  session_id = request.session_id;
  run_id = request.run_id;
  source_type = source_of_request request;
  title = if is_empty request.title then "Session memory" else request.title;
  body = request.body;
  status = status_proposed;
  context_id = "";
  artifact_refs = request.artifact_refs;
  metadata = if is_empty request.metadata then "{}" else request.metadata;
  created_at = at;
  updated_at = at;
}

unfoldable pub create : CreateRequest → Exec Proposal
create request = do
  refuse_if (is_empty request.project_id || is_empty request.session_id || is_empty request.run_id)
      (required "project_id, session_id, and run_id")
  refuse_if (is_empty request.body) (required "body")
  at ← now
  proposal_id ← new_id "memory"
  exec_insert (upsert_proposal (new_proposal request at proposal_id))
  get_by_run_source request.run_id (source_of_request request)

unfoldable pub list : String → ℕ → Exec (List Proposal)
list status limit = query (λ db. take (if limit =ℕ= 0 then 50 else limit) (
    Table.order_by (λ a b. str_lt b.updated_at a.updated_at)
      (Table.select (λ p. is_empty status || p.status == status) db.memory_proposals)))

-- the UPDATE of setStatus
abbrev pub with_status : String → String → String → Proposal → Proposal
with_status status context_id at p = record p {
  status = status;
  context_id = if is_empty context_id then p.context_id else context_id;
  updated_at = at;
}

unfoldable pub update_proposal : String → (Proposal → Proposal) → Db → Db
update_proposal proposal_id f db = record db {
  memory_proposals = Table.update (has_id proposal_id) f db.memory_proposals;
}

unfoldable pub set_status : String → String → String → Exec Proposal
set_status proposal_id status context_id = do
  at ← now
  exec (update_proposal proposal_id (with_status status context_id at))
  get proposal_id

-- the item that is made of a proposal
unfoldable pub item_of : Proposal → Item
item_of p = record {
  context_id = "";
  project_id = p.project_id;
  run_id = p.run_id;
  task_id = "";
  agent_id = "";
  agent_pair = "";
  task_type = "";
  scope = scope_project;
  kind = kind_run_summary;
  title = p.title;
  body = p.body;
  tags = "memory" ∷ p.source_type ∷ [];
  subject_refs = [];
  artifact_refs = p.artifact_refs;
  source = record {
    kind = "memory_proposal";
    run_id = p.run_id;
    task_id = "";
    agent_id = "";
    event_id = "";
  };
  confidence = confidence_generated;
  sensitivity = sensitivity_normal;
  status = status_active;
  expires_at = "";
  supersedes = "";
  metadata = ("proposal_id", p.proposal_id) ∷ [];
  created_at = "";
  updated_at = "";
}

-- Approve, with a store of shared context
unfoldable pub approve : List Pattern → String → Exec Proposal
approve patterns proposal_id = do
  proposal ← get proposal_id
  refuse_if (not (proposal.status == status_proposed)) (wrong_status proposal.status)
  item ← save_item patterns (item_of proposal)
  set_status proposal_id status_approved item.context_id

unfoldable pub reject : String → Exec Proposal
reject proposal_id = set_status proposal_id status_rejected ""

-- Delete
unfoldable pub delete : String → Exec Proposal
delete proposal_id = set_status proposal_id status_deleted ""
