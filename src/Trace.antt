-- ===== src/Trace.antt =====
-- internal/trace/store.go: the events of runs.
pub mod Numbered
pub mod Listing
use mathlib.Core.Option
use nomici_orchestrator.Common.{
  ℕ, suc, String, ◌==◌, Bool, ◌&&◌, ◌||◌, Option, List, [], ◌∷◌, if◌then◌else◌, is_empty, ltb,
  ◌=ℕ=◌,
}
use nomici_orchestrator.Common.Table
use nomici_orchestrator.Store.{
  Db, required, Exec, pure, now, new_id, exec_insert, query, refuse_if, ◌>>=◌, ◌>>◌,
}
use nomici_orchestrator.Store.Rows.{Event}

-- The unique indexes of trace_events: the primary key, and the sequence number within a run.
abbrev pub clash : Event → Event → Bool
clash a b = a.event_id == b.event_id || (a.run_id == b.run_id && a.sequence =ℕ= b.sequence)

abbrev pub in_run : String → Event → Bool
in_run run_id e = e.run_id == run_id

unfoldable pub insert_event : Event → Db → Option Db
insert_event e db =
    Option.map (λ rows. record db { trace_events = rows }) (Table.insert clash e db.trace_events)

-- COALESCE(MAX(sequence), 0)
unfoldable pub max_sequence : List Event → ℕ
max_sequence [] = 0
max_sequence (e ∷ es) =
    let rest = max_sequence es in if ltb rest e.sequence then e.sequence else rest

unfoldable pub next_sequence : String → Exec ℕ
next_sequence run_id =
    query (λ db. suc (max_sequence (Table.select (in_run run_id) db.trace_events)))

-- The event that is stored: its identifier, its number and its time, and `{}` for a payload or
-- metadata that are left out.
unfoldable pub completed : Event → String → ℕ → String → Event
completed event event_id sequence time = record event {
  event_id = event_id;
  sequence = sequence;
  time = time;
  payload = if is_empty event.payload then "{}" else event.payload;
  metadata = if is_empty event.metadata then "{}" else event.metadata;
}

-- Append; a zero time is "", and the event is not nil.
unfoldable pub append : Event → Exec Unit
append event = do
  refuse_if (is_empty event.run_id) (required "run_id")
  refuse_if (is_empty event.event_type) (required "type")
  event_id ← (if is_empty event.event_id then new_id "evt" else pure event.event_id)
  sequence ← (if event.sequence =ℕ= 0 then next_sequence event.run_id else pure event.sequence)
  time ← (if is_empty event.time then now else pure event.time)
  exec_insert (insert_event (completed event event_id sequence time))

unfoldable pub list_by_run_after : String → ℕ → Exec (List Event)
list_by_run_after run_id after = query (λ db.
    Table.order_by (λ a b. ltb a.sequence b.sequence)
      (Table.select (λ e. in_run run_id e && ltb after e.sequence) db.trace_events))

unfoldable pub list_by_run : String → Exec (List Event)
list_by_run run_id = list_by_run_after run_id 0
