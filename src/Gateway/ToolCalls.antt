-- ===== src/Gateway/ToolCalls.antt =====
-- internal/gateway/run_handler.go: the tool calls of one turn of executeTaskWithToolLoop, for a session, a
-- task and a broker that are not nil.
use nomici_orchestrator.Common.{
  ℕ, ◌+◌, String, ◌==◌, Option, none, some, List, [], ◌∷◌, ◌++◌, lookup, assign, leb, if◌then◌else◌,
  is_empty, ◌^+◌,
}
use nomici_orchestrator.Store.{Error, external, ok, err, World, Exec, pure, raise, ◌>>=◌, ◌>>◌}
use nomici_orchestrator.Store.Rows.{Session, Task, CallRecord}
use nomici_orchestrator.SharedContext.Redaction.{Pattern, redact_text}
use nomici_orchestrator.Runs.Types.{status_blocked}
use nomici_orchestrator.Runs.Sessions as Sessions
use nomici_orchestrator.Runs.Tasks as Tasks
use nomici_orchestrator.Blocked as Blocked
use nomici_orchestrator.Toolbroker.Types.{ExecuteRequest, status_waiting_approval, risk_critical}
use nomici_orchestrator.Gateway.Ledger.{
  text, count, Object, Codec, append_run_ledger_trace, with_metadata,
}
use nomici_orchestrator.Gateway.Lifecycle.{
  dropped, block_for_tool_approval, block_for_tool_loop_guardrail,
}
use nomici_orchestrator.Gateway.Roles.{Ran, finished, failed, append_tool_observations}
use nomici_orchestrator.Gateway.Calls.{
  ModelCall, Result, Answer, Models, result_preview, tool_observation, tool_call_id,
  tool_call_status, normalize_model_tool_id, model_tool_failure_signature,
}

-- how often each request has failed, by its signature
abbrev pub Counts : Type 0
Counts = List (String × ℕ)

-- what becomes of one call, and of the calls of a turn: the loop is left, or there are observations
pub data Called : Type 0 where
  stops : Ran → Called
  seen : String → Counts → Called

pub data Turn : Type 0 where
  stopped : Ran → Turn
  observed : List String → Counts → Turn

-- `if err := …; err != nil { return …, err }`
unfoldable pub guarded : {A : Type 0} → Task → Exec A → (A → Exec Ran) → Exec Ran
guarded task m k w = elim (m w) [ ok a w' ↦ k a w' | err e w' ↦ ok (failed task e) w' ]

-- `return result, observations, block(…)`, where `done` stands for a block that returns no error
unfoldable pub returned : Ran → Task → Exec Unit → Exec Ran
returned done task m w = elim (m w) [ ok u w' ↦ ok done w' | err e w' ↦ ok (failed task e) w' ]

-- a call of the broker, which has no error of its own
unfoldable pub asked : {A : Type 0} → (World → A × World) → Exec A
asked f w = ok (f w).0 (f w).1

abbrev pub is_waiting : Option CallRecord → Option CallRecord
is_waiting none = none
is_waiting (some r) = if r.status == status_waiting_approval then some r else none

abbrev pub is_critical : Option CallRecord → Option CallRecord
is_critical none = none
is_critical (some r) = if r.risk == risk_critical then some r else none

abbrev count_of : String → Counts → ℕ
count_of signature counts = elim (lookup signature counts) [ none ↦ 0 | some n ↦ n ]

abbrev risk_review_body : String
risk_review_body =
    "A critical-risk tool call was blocked before execution. Review the request and choose whether to retry with safer inputs, skip it, or stop the run."

module _ (codec : Codec) (patterns : List Pattern) (models : Models) where
  -- blockForToolRiskReview, of a session, a task and a record; it returns an error in each case
  unfoldable pub block_for_tool_risk_review : Session → Task → CallRecord → Error → Exec Unit
  block_for_tool_risk_review session task r cause = do
    Sessions.update_session_status session.run_id status_blocked
    Tasks.set_task_blocked task.task_id status_blocked ("tool_risk_review:" ^+ r.tool_call_id)
    dropped (
        Blocked.create (record {
          session_id = session.session_id;
          run_id = session.run_id;
          task_id = task.task_id;
          kind = "tool_risk_review";
          title = "Review critical tool request";
          body = risk_review_body;
          required_action = "retry_skip_or_stop";
          resume_target_task_id = task.task_id;
          approval_id = "";
          artifact_id = "";
          tool_call_id = r.tool_call_id;
          metadata = codec.encode (
              ("tool_id", text r.tool_id)
              ∷ ("risk", text r.risk)
              ∷ ("error", text (redact_text patterns (models.message cause)))
              ∷ []);
        }))
    dropped (
        append_run_ledger_trace codec session.run_id "task.blocked" task.agent_id (
          ("session_id", text session.session_id)
          ∷ ("task_id", text task.task_id)
          ∷ ("reason", text "tool_risk_review")
          ∷ ("tool_call_id", text r.tool_call_id)
          ∷ ("tool_id", text r.tool_id)
          ∷ ("risk", text r.risk)
          ∷ []))
    raise (external ("tool_risk_review: " ^+ risk_review_body))

  module _ (session : Session) (task : Task) where
    abbrev pub request_of : String → Object → ExecuteRequest
    request_of tool_id input = record {
      session_id = session.session_id;
      run_id = session.run_id;
      task_id = task.task_id;
      agent_id = task.agent_id;
      tool_id = tool_id;
      input = models.printed input;
    }

    -- a call that waits for an approval: what is left to do is kept in the metadata of the task
    unfoldable pub await_approval :
        Result
        → ℕ
        → String
        → List String
        → List String
        → ModelCall
        → String
        → CallRecord
        → Exec Called
    unfolding returned
    await_approval result round prompt observations turn call tool_id r = do
      let changed = with_metadata codec task (
          ("summary", text ("Waiting for approval to run " ^+ tool_id ^+ "."))
          ∷ ("output_preview", text (result_preview result))
          ∷ ("tool_loop_prompt", text (append_tool_observations prompt turn))
          ∷ (
            "tool_loop_pending_json",
            text (models.encode_pending (record call { id = r.tool_call_id })),
          )
          ∷ ("tool_loop_round", count (round + 1))
          ∷ [])
      dropped (Tasks.update_task_metadata task.task_id changed.metadata)
      dropped (
          append_run_ledger_trace codec session.run_id "tool.loop.blocked" task.agent_id (
            ("task_id", text task.task_id)
            ∷ ("round", count (round + 1))
            ∷ ("tool_id", text tool_id)
            ∷ ("tool_call_id", text r.tool_call_id)
            ∷ ("approval_id", text r.approval_id)
            ∷ []))
      ran ←
          returned (finished changed (result_preview result) observations) changed
            (block_for_tool_approval codec session changed r)
      pure (stops ran)

    -- A call that failed. The guardrail leaves its words in the metadata of the task, which every
    -- reader of this `failed` writes there again.
    unfoldable pub after_failure :
        Result → List String → ModelCall → String → Answer → Error → String → Counts → Exec Called
    unfolding returned
    after_failure result all call tool_id a e observation counts =
        let left = finished task (result_preview result) all in
        let signature = model_tool_failure_signature codec tool_id call.input in
        let failures = count_of signature counts + 1 in
        elim (is_critical a.call_record) [
          | some r ↦ returned left task (block_for_tool_risk_review session task r e) >>= λ ran.
              pure (stops ran)
          | none ↦
              if leb 2 failures
              then (returned left task (
                    block_for_tool_loop_guardrail codec session task "repeated_tool_failure"
                      "The same tool request failed repeatedly. Choose whether to retry after changing inputs, skip the tool, or stop the run."
                      (("tool_id", text tool_id)
                        ∷ ("tool_call_id", text (tool_call_id a))
                        ∷ ("failure_count", count failures)
                        ∷ ("error", text (redact_text patterns (models.message e)))
                        ∷ ("observation", text (redact_text patterns observation))
                        ∷ []))
                  >>= λ ran. pure (stops ran))
              else pure (seen observation (assign signature failures counts))
        ]

    -- a call that was executed
    unfoldable pub after_call :
        Result → List String → List String → ModelCall → String → Answer → Counts → Exec Called
    unfolding after_failure
    after_call result observations turn call tool_id a counts = do
      let observation = tool_observation models tool_id a
      dropped (
          append_run_ledger_trace codec session.run_id "tool.loop.observed" task.agent_id (
            ("task_id", text task.task_id)
            ∷ ("tool_id", text tool_id)
            ∷ ("tool_call_id", text (tool_call_id a))
            ∷ ("status", text (tool_call_status a))
            ∷ ("output_preview", text (redact_text patterns observation))
            ∷ []))
      elim a.failure [
        | none ↦ pure (seen observation counts)
        | some e ↦
            after_failure result (observations ++ turn ++ observation ∷ []) call tool_id a e
              observation counts
      ]

    unfoldable pub execute_call :
        Result → ℕ → String → List String → List String → ModelCall → Counts → Exec Called
    unfolding await_approval after_call asked
    execute_call result round prompt observations turn call counts =
        let tool_id = normalize_model_tool_id call.tool_id in
        if is_empty tool_id
        then pure (
            seen
              ("Tool " ^+ models.quoted call.tool_id ^+ " was skipped because it is not available.")
              counts)
        else (asked (models.execute (request_of tool_id call.input)) >>= λ a.
            elim (is_waiting a.call_record) [
              | some r ↦ await_approval result round prompt observations turn call tool_id r
              | none ↦ after_call result observations turn call tool_id a counts
            ])

    unfoldable pub execute_calls :
        Result → ℕ → String → List String → List String → Counts → List ModelCall → Exec Turn
    unfolding execute_call
    execute_calls result round prompt observations turn counts [] = pure (observed turn counts)
    execute_calls result round prompt observations turn counts (call ∷ calls) =
        execute_call result round prompt observations turn call counts >>= λ called. elim called [
          | stops ran ↦ pure (stopped ran)
          | seen o more ↦ execute_calls result round prompt observations (turn ++ o ∷ []) more calls
        ]
