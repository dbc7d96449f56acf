-- ===== src/Scenarios/ToolLoop.antt =====
-- internal/gateway/run_handler.go executeTaskWithToolLoop on a model that lists the files and then reports.
use nomici_orchestrator.Common.{
  ◌==◌, ◌≡◌, refl, none, [], ◌∷◌, is_empty, trim_space, if◌then◌else◌, lower, starts_with,
  text_after, text_before, up_to_last, indented,
}
use nomici_orchestrator.Common.Table
use nomici_orchestrator.Store.{World, pure, ok, final, attempt, ◌>>=◌, refuse_if, row}
use nomici_orchestrator.Trace as Trace
use nomici_orchestrator.SharedContext.Redaction.{redact_text, replace_all}
use nomici_orchestrator.Runs.Sessions.{get_detail, get_by_session, scan_session, list_tasks}
use nomici_orchestrator.Gateway.Ledger.{append_run_ledger_trace, stop_if_session_runnable}
use nomici_orchestrator.Gateway.Roles.{finished, append_tool_observations}
use nomici_orchestrator.Gateway.Calls.{
  Models, Result, result_preview, extract_model_tool_calls, model_tool_calls_from_result,
  tool_observation, tool_call_id, tool_call_status, normalize_model_tool_id, fenced_json,
  first_json_object,
}
use nomici_orchestrator.Gateway.ToolCalls.{guarded, asked, after_call, execute_call, execute_calls}
use nomici_orchestrator.Gateway.ToolLoop.{
  finish_loop, take_turn, tool_rounds, execute_task_with_tool_loop,
}
use nomici_orchestrator.Gateway.Final.{IsFinal, execute_task_with_tool_loop-IsFinal}
use nomici_orchestrator.Scenarios.Gateway.{codec, session, task, planned}

abbrev asks : Result
asks = record {
  messages = [];
  tool_calls = record { id = ""; tool_id = " list_files "; input = [] } ∷ [];
  cli = none;
}

abbrev reports : Result
reports = record {
  messages = record { role = "assistant"; content = "Two files." } ∷ [];
  tool_calls = [];
  cli = none;
}

abbrev models : Models
models = record {
  invoke = λ agent prompt id. pure (if prompt == "Report" then asks else reports);
  execute = λ request w. (record { call_record = none; failure = none }, w);
  execute_approved = λ id request w. (record { call_record = none; failure = none }, w);
  decode_envelope = λ s. none;
  decode_pending = λ s. none;
  encode_pending = λ c. "[]";
  quoted = λ s. s;
  printed = λ input. [];
  message = λ e. "failed";
}

abbrev answered : World
answered =
    final (execute_task_with_tool_loop codec [] models session task "planner" "Report" planned)

answers :
    execute_task_with_tool_loop codec [] models session task "planner" "Report" planned
    ≡ ok (finished task "Two files." ("list_files produced no record." ∷ [])) answered
unfolding execute_task_with_tool_loop tool_rounds guarded stop_if_session_runnable get_by_session
    get_detail scan_session list_tasks model_tool_calls_from_result extract_model_tool_calls
    result_preview fenced_json first_json_object text_after text_before up_to_last starts_with lower
    take_turn execute_calls execute_call asked after_call normalize_model_tool_id tool_observation
    tool_call_id tool_call_status finish_loop append_tool_observations append_run_ledger_trace
    redact_text replace_all Trace.append Trace.insert_event Trace.next_sequence Trace.completed
    Trace.max_sequence attempt pure ◌>>=◌ row refuse_if is_empty trim_space Table.insert Table.find
    Table.select Table.order_by indented
answers = refl

execute_task_with_tool_loop-IsFinal_example :
    IsFinal models session task "planner" task "Two files."
execute_task_with_tool_loop-IsFinal_example =
    execute_task_with_tool_loop-IsFinal codec [] models session task "planner" "Report" planned
      answers
