-- ===== src/Scenarios/Worklocks.antt =====
-- internal/worklocks/store.go on concrete locks.
use nomici_orchestrator.Common.{trim_space, is_empty, ◌≤◌, ◌≡◌, refl, [], ◌∷◌}
use nomici_orchestrator.Common.Table
use nomici_orchestrator.Store.{World, final, next, err, ok, locked}
use nomici_orchestrator.Store.Rows.{Lock}
use nomici_orchestrator.Worklocks.{AcquireRequest, acquire, release, holds, status_held}
use nomici_orchestrator.Worklocks.Exclusive.{acquires, releases, serve_all, one_holder}
use nomici_orchestrator.Worklocks.Handover.{IsNamed, wanted, acquire-held, acquire_after_release}
use nomici_orchestrator.Scenarios.Base.{start}

abbrev request : AcquireRequest
request = record {
  run_id = "run_1";
  task_id = "task_1";
  tool_call_id = "tool_1";
  resource = " repo ";
  owner = "";
  metadata = "";
}

-- the lock that another call of the run holds
abbrev held_lock : Lock
held_lock = record {
  lock_id = "lock_1";
  run_id = "run_1";
  task_id = "task_0";
  tool_call_id = "tool_0";
  resource = "repo";
  mode = "exclusive";
  status = status_held;
  owner = "toolbroker";
  metadata = "{}";
  acquired_at = "2026-01-01T00:00:00Z";
  released_at = "";
}

abbrev busy : World
busy = record start { db = record start.db { workspace_locks = held_lock ∷ [] } }

request-IsNamed : IsNamed request
unfolding trim_space is_empty
request-IsNamed = record { run = refl; resource = refl }

one_holder_example :
    Table.affected
      (holds "run_1" "repo")
      (serve_all
        (acquires request ∷ releases "lock_1" ∷ acquires request ∷ [])
        busy).db.workspace_locks
    ≤ 1
one_holder_example =
    one_holder (acquires request ∷ releases "lock_1" ∷ acquires request ∷ []) busy "run_1" "repo"
      (refl, tt)

acquire-held_example : acquire request busy ≡ err (locked "repo") (next (next (next busy)))
unfolding trim_space
acquire-held_example = acquire-held request busy request-IsNamed refl

acquire_after_release_example :
    (w' : World) × (acquire request (final (release "lock_1" busy))
      ≡ ok (wanted request (final (release "lock_1" busy))) w')
unfolding trim_space is_empty Table.find
acquire_after_release_example =
    acquire_after_release request held_lock busy (refl, tt) request-IsNamed (λ n. refl) refl refl
      refl refl
