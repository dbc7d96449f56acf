-- ===== src/Blocked.antt =====
-- internal/blocked/store.go: the actions of a person that runs wait for.
pub mod Closed
use mathlib.Core.Option
use nomici_orchestrator.Common.{
  ℕ, String, ◌==◌, Bool, ◌&&◌, ◌||◌, Option, List, [], ◌∷◌, if◌then◌else◌, take, is_empty, str_lt,
  ◌=ℕ=◌,
}
use nomici_orchestrator.Common.Table
use nomici_orchestrator.Store.{
  Db, required, Exec, pure, now, new_id, exec, exec_insert, query, refuse_if, row, ◌>>=◌, ◌>>◌,
}
use nomici_orchestrator.Store.Rows.{Action}

abbrev pub status_open : String
status_open = "open"

abbrev pub status_resolved : String
status_resolved = "resolved"

abbrev pub status_rejected : String
status_rejected = "rejected"

pub record CreateRequest : Type 0 where
  pub session_id : String
  pub run_id : String
  pub task_id : String
  pub kind : String
  pub title : String
  pub body : String
  pub required_action : String
  pub resume_target_task_id : String
  pub approval_id : String
  pub artifact_id : String
  pub tool_call_id : String
  pub metadata : String

-- The primary key of blocked_actions.
abbrev pub clash : Action → Action → Bool
clash a b = a.blocked_action_id == b.blocked_action_id

abbrev pub has_id : String → Action → Bool
has_id action_id a = a.blocked_action_id == action_id

unfoldable pub insert_action : Action → Db → Option Db
insert_action a db =
    Option.map (λ rows. record db { blocked_actions = rows })
      (Table.insert clash a db.blocked_actions)

unfoldable pub new_action : CreateRequest → String → String → Action
new_action request at action_id = record {
  blocked_action_id = action_id;
  session_id = request.session_id;
  run_id = request.run_id;
  task_id = request.task_id;
  kind = request.kind;
  status = status_open;
  title = if is_empty request.title then request.kind else request.title;
  body = request.body;
  required_action = request.required_action;
  resume_target_task_id = request.resume_target_task_id;
  approval_id = request.approval_id;
  artifact_id = request.artifact_id;
  tool_call_id = request.tool_call_id;
  metadata = if is_empty request.metadata then "{}" else request.metadata;
  created_at = at;
  updated_at = at;
  resolved_at = "";
}

unfoldable pub create : CreateRequest → Exec Action
create request = do
  refuse_if (is_empty request.session_id || is_empty request.run_id)
      (required "session_id and run_id")
  refuse_if (is_empty request.kind) (required "kind")
  at ← now
  action_id ← new_id "block"
  let action = new_action request at action_id
  exec_insert (insert_action action)
  pure action

-- A limit that is not positive stands for 50; it is 0 here.
abbrev pub latest : ℕ → (Action → Bool) → Db → List Action
latest limit p db =
    take (if limit =ℕ= 0 then 50 else limit)
      (Table.order_by (λ a b. str_lt b.updated_at a.updated_at) (Table.select p db.blocked_actions))

unfoldable pub list_by_session : String → String → ℕ → Exec (List Action)
list_by_session session_id status limit = do
  refuse_if (is_empty session_id) (required "session_id")
  query (latest limit (λ a. a.session_id == session_id && (is_empty status || a.status == status)))

unfoldable pub list : String → ℕ → Exec (List Action)
list status limit = query (latest limit (λ a. is_empty status || a.status == status))

unfoldable pub get : String → Exec Action
get action_id = do found ← query (λ db. Table.find (has_id action_id) db.blocked_actions); row found

-- what the UPDATE of setStatus sets; metadata that are left out stay
abbrev pub with_status : String → String → String → Action → Action
with_status status at metadata a = record a {
  status = status;
  updated_at = at;
  resolved_at = at;
  metadata = if is_empty metadata then a.metadata else metadata;
}

unfoldable pub update_actions : (Action → Bool) → (Action → Action) → Db → Db
update_actions p f db = record db { blocked_actions = Table.update p f db.blocked_actions }

-- The UPDATE of setStatus, by its WHERE clause: it sees the open actions only.
unfoldable pub set_status : (Action → Bool) → String → String → Exec Unit
set_status p status metadata = do
  at ← now
  exec (update_actions (λ a. p a && a.status == status_open) (with_status status at metadata))

abbrev pub or_braces : String → String
or_braces metadata = if is_empty metadata then "{}" else metadata

unfoldable pub resolve : String → String → Exec Action
resolve action_id metadata = do
  set_status (has_id action_id) status_resolved (or_braces metadata)
  get action_id

unfoldable pub reject : String → String → Exec Action
reject action_id metadata = do
  set_status (has_id action_id) status_rejected (or_braces metadata)
  get action_id

unfoldable pub resolve_by_approval : String → String → Exec Unit
resolve_by_approval approval_id status =
    if is_empty approval_id
    then pure tt
    else set_status (λ a. a.approval_id == approval_id)
        (if is_empty status then status_resolved else status) ""

unfoldable pub resolve_by_artifact : String → Exec Unit
resolve_by_artifact artifact_id =
    if is_empty artifact_id
    then pure tt
    else set_status (λ a. a.artifact_id == artifact_id) status_resolved ""
