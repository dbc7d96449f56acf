-- ===== src/Scenarios/Locking.antt =====
-- internal/toolbroker/broker.go withWorkspaceLock with work that fails.
use nomici_orchestrator.Common.{String, ◌≡◌, refl, is_empty, trim_space, [], ◌∷◌}
use nomici_orchestrator.Common.Table
use nomici_orchestrator.Store.{
  World, Exec, ok, external, final, raise, next, ◌>>=◌, refuse_if, attempt,
}
use nomici_orchestrator.Store.Rows.{Lock}
use nomici_orchestrator.Trace
use nomici_orchestrator.Toolbroker.Broker.{ignore, trace}
use nomici_orchestrator.Worklocks.{acquire, new_lock}
use nomici_orchestrator.Toolbroker.Locking.{
  lock_request, with_workspace_lock, IsReleased, with_workspace_lock-IsReleased,
}
use nomici_orchestrator.Scenarios.Base.{start}
use nomici_orchestrator.Scenarios.Toolbroker.{library}

abbrev work : Exec String
work = raise (external "exit status 1")

abbrev lock : Lock
lock =
    new_lock (lock_request library "run_1" "task_1" "toolcall_1" "repo" "{}") "2026-01-02T03:04:05Z"
      "lock_0a1b"

abbrev locked : World
locked = record (next (next (next start))) { db = record start.db { workspace_locks = lock ∷ [] } }

acquired :
    acquire (lock_request library "run_1" "task_1" "toolcall_1" "repo" "{}") start ≡ ok lock locked
unfolding acquire ◌>>=◌ refuse_if is_empty trim_space Table.insert
acquired = refl

with_workspace_lock-IsReleased_example :
    IsReleased lock.lock_id
      (final (
        with_workspace_lock library "run_1" "task_1" "toolcall_1" "repo" "{}" work
          start)).db.workspace_locks
unfolding raise trace is_empty ignore attempt ◌>>=◌ Trace.append refuse_if Trace.next_sequence
    Trace.insert_event Table.insert
with_workspace_lock-IsReleased_example =
    with_workspace_lock-IsReleased library "run_1" "task_1" "toolcall_1" "repo" "{}" work start
      acquired refl
