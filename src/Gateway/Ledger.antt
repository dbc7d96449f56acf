-- ===== src/Gateway/Ledger.antt =====
-- internal/gateway/run_handler.go: what the handler of runs writes to the trace and to the metadata of
-- tasks, and what it reads of them. Every service is there.
use Prim.Native.String.{len, slice}
use nomici_orchestrator.Common.{
  ℕ, String, ◌==◌, Bool, true, false, ◌||◌, Option, none, some, List, [], ◌∷◌, map, is_empty, ltb,
  lookup, assign, trim_space, if◌then◌else◌, ◌^+◌,
}
use nomici_orchestrator.Store.{wrong_status, Exec, pure, raise, attempt, ◌>>=◌, ◌>>◌}
use nomici_orchestrator.Store.Rows.{Session, Task}
use nomici_orchestrator.Trace as Trace
use nomici_orchestrator.Runs.Types.{
  is_in, status_running, status_cancelled, status_plan_review, status_blocked,
  status_needs_clarification,
}
use nomici_orchestrator.Runs.Sessions.{get_by_session}
use nomici_orchestrator.Runs.Tasks as Tasks

-- a value of a JSON object; `raw` is JSON that stands in it as it is
pub data Value : Type 0 where
  text : String → Value
  truth : Bool → Value
  count : ℕ → Value
  texts : List String → Value
  raw : String → Value

abbrev pub Object : Type 0
Object = List (String × Value)

-- json.Marshal and json.Unmarshal on objects; what is no object decodes to none of its fields
pub record Codec : Type 0 where
  pub encode : Object → String
  pub decode : String → Object

module _ (codec : Codec) where
  -- appendRunLedgerTrace
  unfoldable pub append_run_ledger_trace : String → String → String → Object → Exec Unit
  append_run_ledger_trace run_id event_type node_id payload = Trace.append (record {
    event_id = "";
    run_id = run_id;
    sequence = 0;
    event_type = event_type;
    time = "";
    node_id = node_id;
    runtime_id = "";
    payload = codec.encode payload;
    redactions = [];
    metadata = "";
  })

  assign_all : Object → Object → Object
  assign_all [] m = m
  assign_all (e ∷ updates) m = assign_all updates (assign e.0 e.1 m)

  -- the task as updateTaskMetadata changes it in place, whatever the store returns
  unfoldable pub with_metadata : Task → Object → Task
  unfolding assign_all
  with_metadata task updates = record task {
    metadata = codec.encode (assign_all updates (codec.decode task.metadata));
  }

  -- updateTaskMetadata, which returns the changed task
  unfoldable pub update_task_metadata : Task → Object → Exec Task
  unfolding with_metadata
  update_task_metadata task updates = do
    Tasks.update_task_metadata task.task_id (with_metadata task updates).metadata
    pure (with_metadata task updates)

  text_of : Option Value → String
  text_of (some (text s)) = s
  text_of (some (truth b)) = ""
  text_of (some (count n)) = ""
  text_of (some (texts ts)) = ""
  text_of (some (raw s)) = ""
  text_of none = ""

  -- taskMetadataString
  unfoldable pub task_metadata_string : Task → String → String
  unfolding text_of
  task_metadata_string task key = text_of (lookup key (codec.decode task.metadata))

  filled : List String → List String
  filled [] = []
  filled (s ∷ rest) = if is_empty (trim_space s) then filled rest else s ∷ filled rest

  texts_of : Option Value → List String
  unfolding filled
  texts_of (some (texts ts)) = filled ts
  texts_of (some (text s)) = []
  texts_of (some (truth b)) = []
  texts_of (some (count n)) = []
  texts_of (some (raw s)) = []
  texts_of none = []

  -- taskMetadataStringSlice
  unfoldable pub task_metadata_string_slice : Task → String → List String
  unfolding texts_of
  task_metadata_string_slice task key = texts_of (lookup key (codec.decode task.metadata))

  unfoldable pub task_role_id : Task → String
  unfolding task_metadata_string
  task_role_id task =
      let role_id = task_metadata_string task "role_id" in
      if is_empty role_id then task.agent_id else role_id

  abbrev some_texts : List String → Bool
  some_texts [] = false
  some_texts (t ∷ ts) = true

  -- shouldOfferToolProtocol, of a task that is not nil
  unfoldable pub should_offer_tool_protocol : Task → Bool
  unfolding task_role_id task_metadata_string_slice
  should_offer_tool_protocol task =
      some_texts (task_metadata_string_slice task "required_tools")
      || is_in ("researcher" ∷ "coder" ∷ []) (task_role_id task)

  truth_of : Option Value → Option Bool
  truth_of (some (truth b)) = some b
  truth_of (some (text s)) = none
  truth_of (some (count n)) = none
  truth_of (some (texts ts)) = none
  truth_of (some (raw s)) = none
  truth_of none = none

  object_of : Option Value → Object
  object_of (some (raw s)) = codec.decode s
  object_of (some (truth b)) = []
  object_of (some (text s)) = []
  object_of (some (count n)) = []
  object_of (some (texts ts)) = []
  object_of none = []

  abbrev or_false : Option Bool → Bool
  or_false none = false
  or_false (some b) = b

  -- routeNeedsPlanReview, of a session that is not nil
  unfoldable pub route_needs_plan_review : Session → Bool
  unfolding truth_of object_of
  route_needs_plan_review s =
      let m = codec.decode s.metadata in
      elim (truth_of (lookup "needs_plan_review" m)) [
        | some b ↦ b
        | none ↦
            or_false (truth_of (lookup "needs_plan_review" (object_of (lookup "route_decision" m))))
      ]

-- The first 600 bytes of a longer preview. Where the cut is within a character, its bytes are left out.
unfoldable pub task_summary : Task → String → String
task_summary task preview =
    if is_empty preview
    then task.agent_id ^+ " completed without text output."
    else if ltb 600 (len preview)
    then slice preview 0 600
    else preview

-- stopIfSessionRunnable, which returns where the session is running
unfoldable pub stop_if_session_runnable : String → Exec Unit
stop_if_session_runnable session_id = do
  detail ← get_by_session session_id
  if detail.session.status == status_running
      then pure tt
      else raise (wrong_status detail.session.status)

unfoldable pub stop_if_session_cancelled : String → Exec Unit
stop_if_session_cancelled session_id = do
  detail ← get_by_session session_id
  if detail.session.status == status_cancelled
      then raise (wrong_status status_cancelled)
      else pure tt

abbrev pub paused : List String
paused = status_plan_review ∷ status_blocked ∷ status_needs_clarification ∷ []

unfoldable pub session_is_paused : String → Exec Bool
session_is_paused session_id =
    if is_empty session_id
    then pure false
    else attempt false
        (do detail ← get_by_session session_id; pure (is_in paused detail.session.status))

unfoldable pub task_ids : List Task → List String
task_ids tasks = map (λ (t : Task). t.task_id) tasks
