-- ===== src/Runs/Settled.antt =====
-- internal/runs/store.go: what is left of a run's tasks once they are cancelled.
use nomici_orchestrator.Common.{String, ◌==◌, ◌≡◌, ◌⊎◌, Bool, true, ◌&&◌}
use nomici_orchestrator.Common.Table
use nomici_orchestrator.Common.Table.{touch}
use nomici_orchestrator.Store.Rows.{Task}
use nomici_orchestrator.Runs.Types.{is_in, status_cancelled}
use nomici_orchestrator.Runs.Tasks.{active, finished}

abbrev is_active : String → Task → Bool
is_active run_id t = t.run_id == run_id && is_in active t.status

-- A task is as it was, or it was active and has been cancelled at that time.
abbrev pub Cancels : String → String → Task → Task → Type 0
Cancels run_id at a b =
    (b ≡ a) ⊎ ((is_active run_id a ≡ true) × (b ≡ finished status_cancelled at a))
