-- ===== src/Scenarios/Artifacts.antt =====
-- internal/artifacts/store.go on an artifact that is created and revised.
use nomici_orchestrator.Common.{◌≡◌, refl, List, [], ◌∷◌, map, is_empty, trim_space}
use nomici_orchestrator.Common.Table
use nomici_orchestrator.Store.{◌>>=◌, refuse_if, row}
use nomici_orchestrator.Artifacts.Records.{
  create, revise, set_review_state, record_revision, new_artifact, new_revision, insert_artifact,
  insert_revision, update_artifact, get, diff_preview,
}
use nomici_orchestrator.Artifacts.Types.{CreateRequest, Revision}
use nomici_orchestrator.Artifacts.History.{IsHistory}
use nomici_orchestrator.Artifacts.Preserved.{
  Operation, creates, revises, reviews, after_all, after_all-IsHistory,
}
use nomici_orchestrator.Scenarios.Base.{varied}

abbrev request : CreateRequest
request = record {
  session_id = "session_1";
  run_id = "run_1";
  task_id = "task_1";
  artifact_type = "report";
  title = "";
  path = "report.md";
  revision = 0;
  review_state = "";
  preview = "first";
  metadata = "";
}

abbrev work : List Operation
work =
    creates request
    ∷ revises "artifact_i" "second"
    ∷ reviews "artifact_i" ""
    ∷ revises "artifact_i" "third"
    ∷ []

third :
    map (λ (r : Revision). r.preview) (after_all work varied).db.artifact_revision_records
    ≡ "first" ∷ "second" ∷ "third" ∷ []
unfolding create revise set_review_state record_revision new_artifact new_revision insert_artifact
    insert_revision update_artifact get diff_preview ◌>>=◌ refuse_if row is_empty trim_space
    Table.insert Table.find Table.update
third = refl

after_all-IsHistory_example : IsHistory (after_all work varied).db
after_all-IsHistory_example =
    after_all-IsHistory work varied (record { keys = tt; recorded = tt; increasing = tt })
