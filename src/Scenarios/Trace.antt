-- ===== src/Scenarios/Trace.antt =====
-- internal/trace/store.go on concrete events.
use nomici_orchestrator.Common.{Bool-cases, ◌==◌, inl, inr, drop, ◌≡◌, refl, List, [], ◌∷◌}
use nomici_orchestrator.Common.Table
use nomici_orchestrator.Store.{World, ok, next}
use nomici_orchestrator.Store.Rows.{Event}
use nomici_orchestrator.Trace.{list_by_run_after}
use nomici_orchestrator.Trace.Numbered.{append_all, append_all-IsSequenced, events_of, IsSequenced}
use nomici_orchestrator.Trace.Listing.{list_by_run_after-drop}
use nomici_orchestrator.Scenarios.Base.{start}

-- an event of a run as it comes, without a number, a time and an identifier
abbrev event : Event
event = record {
  event_id = "";
  run_id = "run_1";
  sequence = 0;
  event_type = "policy.checked";
  time = "";
  node_id = "agent_1";
  runtime_id = "";
  payload = "";
  redactions = [];
  metadata = "";
}

start-IsSequenced : IsSequenced start.db
unfolding Table.select
start-IsSequenced run_id = tt

abbrev events : List Event
events = record event { event_id = "evt_1" } ∷ record event { event_id = "evt_2" } ∷ []

append_all-IsSequenced_example : IsSequenced (append_all events start).db
append_all-IsSequenced_example =
    append_all-IsSequenced events start (refl, (refl, tt)) start-IsSequenced

-- what is stored of two such events
abbrev stored : World
stored = record start {
  db = record start.db {
    trace_events =
        record event { event_id = "evt_1"; sequence = 1 }
        ∷ record event { event_id = "evt_2"; sequence = 2 }
        ∷ [];
  };
}

stored-IsSequenced : IsSequenced stored.db
unfolding Table.select
stored-IsSequenced run_id = elim (Bool-cases ("run_1" == run_id)) [
  | inl e ↦ rw e (refl, (refl, tt))
  | inr e ↦ rw e tt
]

list_by_run_after-drop_example :
    list_by_run_after "run_1" 1 stored ≡ ok (drop 1 (events_of "run_1" stored.db)) (next stored)
list_by_run_after-drop_example = list_by_run_after-drop "run_1" 1 stored stored-IsSequenced refl
