-- ===== src/Toolbroker/Records.antt =====
-- internal/toolbroker/store.go: the records of tool calls.
use mathlib.Core.Option
use nomici_orchestrator.Common.{
  ℕ, String, ◌==◌, Bool, ◌||◌, Option, none, some, List, [], if◌then◌else◌, take, is_empty, str_lt,
  ◌=ℕ=◌,
}
use nomici_orchestrator.Common.Table
use nomici_orchestrator.Store.{
  Db, required, Exec, pure, now, new_id, exec, exec_insert, query, refuse_if, row, ◌>>=◌, ◌>>◌,
}
use nomici_orchestrator.Store.Rows.{CallRecord}
use nomici_orchestrator.Toolbroker.Types.{
  CreateCallRequest, status_pending, status_waiting_approval, status_running, status_completed,
  status_failed, status_denied,
}

-- The primary key of tool_call_records.
abbrev pub clash : CallRecord → CallRecord → Bool
clash a b = a.tool_call_id == b.tool_call_id

abbrev pub has_id : String → CallRecord → Bool
has_id tool_call_id r = r.tool_call_id == tool_call_id

unfoldable pub insert_record : CallRecord → Db → Option Db
insert_record r db =
    Option.map (λ rows. record db { tool_call_records = rows })
      (Table.insert clash r db.tool_call_records)

unfoldable pub update_record : String → (CallRecord → CallRecord) → Db → Db
update_record tool_call_id f db = record db {
  tool_call_records = Table.update (has_id tool_call_id) f db.tool_call_records;
}

unfoldable pub get : String → Exec CallRecord
get tool_call_id = do
  found ← query (λ db. Table.find (has_id tool_call_id) db.tool_call_records)
  row found

unfoldable pub new_record : CreateCallRequest → String → String → CallRecord
new_record request at tool_call_id = record {
  tool_call_id = tool_call_id;
  session_id = request.session_id;
  run_id = request.run_id;
  task_id = request.task_id;
  tool_id = request.tool_id;
  status = if is_empty request.status then status_pending else request.status;
  risk = request.risk;
  input_preview = request.input_preview;
  output_preview = "";
  artifact_refs = [];
  approval_id = "";
  error = "";
  redactions = [];
  metadata = if is_empty request.metadata then "{}" else request.metadata;
  created_at = at;
  updated_at = at;
  completed_at = "";
}

unfoldable pub create : CreateCallRequest → Exec CallRecord
unfolding insert_record
create request = do
  refuse_if (is_empty request.session_id) (required "session_id")
  refuse_if (is_empty request.run_id) (required "run_id")
  refuse_if (is_empty request.tool_id) (required "tool_id")
  at ← now
  tool_call_id ← new_id "toolcall"
  let created = new_record request at tool_call_id
  exec_insert (insert_record created)
  pure created

-- the value given, or what is there where none is
abbrev pub or_text : String → String → String
or_text given current = if is_empty given then current else given

abbrev pub or_list : Option (List String) → List String → List String
or_list none current = current
or_list (some given) current = given

-- the statuses in which a call is over
abbrev pub is_over : String → Bool
is_over status = status == status_completed || status == status_failed || status == status_denied

unfoldable pub update :
    String
    → String
    → String
    → String
    → String
    → String
    → Option (List String)
    → Option (List String)
    → Exec CallRecord
update tool_call_id status risk output_preview approval_id message artifact_refs redactions = do
  refuse_if (is_empty tool_call_id) (required "tool_call_id")
  current ← get tool_call_id
  completed_at ← (if is_over status then now else pure current.completed_at)
  at ← now
  exec (
      update_record tool_call_id (λ r. record r {
        status = status;
        risk = or_text risk current.risk;
        output_preview = or_text output_preview current.output_preview;
        artifact_refs = or_list artifact_refs current.artifact_refs;
        approval_id = or_text approval_id current.approval_id;
        error = message;
        redactions = or_list redactions current.redactions;
        updated_at = at;
        completed_at = completed_at;
      }))
  get tool_call_id

unfoldable pub mark_waiting_approval : String → String → String → String → Exec CallRecord
mark_waiting_approval tool_call_id risk approval_id reason =
    update tool_call_id status_waiting_approval risk "" approval_id reason none none

unfoldable pub mark_running : String → String → Exec CallRecord
mark_running tool_call_id risk = update tool_call_id status_running risk "" "" "" none none

unfoldable pub mark_completed :
    String → String → Option (List String) → Option (List String) → Exec CallRecord
mark_completed tool_call_id output_preview artifact_refs redactions =
    update tool_call_id status_completed "" output_preview "" "" artifact_refs redactions

unfoldable pub mark_failed : String → String → String → Option (List String) → Exec CallRecord
mark_failed tool_call_id output_preview message redactions =
    update tool_call_id status_failed "" output_preview "" message none redactions

-- A limit that is not positive stands for 50; it is 0 here.
unfoldable pub list_by_session : String → ℕ → Exec (List CallRecord)
list_by_session session_id limit = do
  refuse_if (is_empty session_id) (required "session_id")
  query (λ db. take (if limit =ℕ= 0 then 50 else limit) (
      Table.order_by (λ a b. str_lt b.updated_at a.updated_at)
        (Table.select (λ r. r.session_id == session_id) db.tool_call_records)))
