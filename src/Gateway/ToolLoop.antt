-- ===== src/Gateway/ToolLoop.antt =====
-- internal/gateway/run_handler.go: executeTaskWithToolLoop, the turns of a model and its tools in a role,
-- for a session, a task and a broker that are not nil.
use nomici_orchestrator.Common.{
  ℕ, zero, suc, ◌+◌, ◌-◌, String, List, [], ◌∷◌, ◌++◌, map, take, length,
}
use nomici_orchestrator.Store.{Exec, pure, ◌>>=◌, ◌>>◌}
use nomici_orchestrator.Store.Rows.{Session, Task}
use nomici_orchestrator.SharedContext.Redaction.{Pattern, redact_text}
use nomici_orchestrator.Gateway.Ledger.{
  text, count, texts, Codec, append_run_ledger_trace, stop_if_session_runnable,
}
use nomici_orchestrator.Gateway.Lifecycle.{dropped, block_for_tool_loop_guardrail}
use nomici_orchestrator.Gateway.Roles.{Ran, finished, append_tool_observations}
use nomici_orchestrator.Gateway.ToolCalls.{
  Counts, Turn, stopped, observed, guarded, returned, execute_calls,
}
use nomici_orchestrator.Gateway.Calls.{
  ModelCall, Result, Models, max_model_tool_rounds, max_model_tool_calls_per_round, result_preview,
  model_tool_calls_from_result,
}

module _ (codec : Codec) (patterns : List Pattern) (models : Models) (session : Session)
    (task : Task) where
  -- a result that asks for no tool ends the loop
  unfoldable pub finish_loop : ℕ → List String → Result → Exec Ran
  finish_loop round observations result = do
    dropped (
        append_run_ledger_trace codec session.run_id "tool.loop.completed" task.agent_id (
          ("task_id", text task.task_id)
          ∷ ("rounds", count round)
          ∷ ("observations", count (length observations))
          ∷ ("final_preview", text (redact_text patterns (result_preview result)))
          ∷ []))
    pure (finished task (result_preview result) observations)

  -- a result that asks for tools when the turns are used up
  unfoldable pub exhaust_loop : List String → Result → Exec Ran
  unfolding returned
  exhaust_loop observations result =
      returned (finished task (result_preview result) observations) task (
        block_for_tool_loop_guardrail codec session task "tool_loop_budget_exhausted"
          "Tool loop reached the 5 round budget. Review the observations and choose whether to retry, revise the plan, or stop."
          (("rounds", count max_model_tool_rounds)
            ∷ ("observations", texts (map (redact_text patterns) observations))
            ∷ []))

  -- the calls of a turn, eight at most
  unfoldable pub take_turn : ℕ → String → List String → Counts → Result → List ModelCall → Exec Turn
  unfolding execute_calls
  take_turn round prompt observations counts result calls = do
    let taken = take max_model_tool_calls_per_round calls
    dropped (
        append_run_ledger_trace codec session.run_id "tool.loop.requested" task.agent_id (
          ("task_id", text task.task_id)
          ∷ ("round", count (round + 1))
          ∷ ("count", count (length taken))
          ∷ []))
    execute_calls codec patterns models session task result round prompt observations [] counts
        taken

  -- The turns that are left after this one. The error behind the loop is not modelled, since the last
  -- turn returns.
  unfoldable pub tool_rounds : String → ℕ → String → List String → Counts → Exec Ran
  unfolding guarded finish_loop exhaust_loop take_turn
  tool_rounds agent_id zero prompt observations counts =
      guarded task (stop_if_session_runnable session.session_id) (λ _.
        guarded task (models.invoke agent_id prompt task.task_id) (λ result.
          elim (model_tool_calls_from_result models result) [
            | [] ↦ finish_loop max_model_tool_rounds observations result
            | c ∷ cs ↦ exhaust_loop observations result
          ]))
  tool_rounds agent_id (suc left) prompt observations counts =
      let round = max_model_tool_rounds - suc left in
      guarded task (stop_if_session_runnable session.session_id) (λ _.
        guarded task (models.invoke agent_id prompt task.task_id) (λ result.
          elim (model_tool_calls_from_result models result) [
            | [] ↦ finish_loop round observations result
            | c ∷ cs ↦ take_turn round prompt observations counts result (c ∷ cs) >>= λ turn.
                elim turn [
                  | stopped ran ↦ pure ran
                  | observed os more ↦
                      tool_rounds agent_id left (append_tool_observations prompt os)
                        (observations ++ os) more
                ]
          ]))

  -- executeTaskWithToolLoop
  unfoldable pub execute_task_with_tool_loop : String → String → Exec Ran
  unfolding tool_rounds
  execute_task_with_tool_loop agent_id prompt =
      tool_rounds agent_id max_model_tool_rounds prompt [] []
