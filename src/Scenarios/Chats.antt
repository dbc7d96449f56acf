-- ===== src/Scenarios/Chats.antt =====
-- internal/chats/store.go on a message that is rated twice.
use nomici_orchestrator.Common.{String, ◌≡◌, refl, [], ◌∷◌, is_empty}
use nomici_orchestrator.Common.Table
use nomici_orchestrator.Chats.Types.{Feedback}
use nomici_orchestrator.Chats.Records.{upsert_row, upsert_feedback}
use nomici_orchestrator.Chats.Rated.{IsRated, upsert_feedback-IsRated}
use nomici_orchestrator.Store.{World, ok, refuse_if, ◌>>=◌}
use nomici_orchestrator.Scenarios.Base.{start}

abbrev given : String → String → String → Feedback
given chat_id score note = record {
  feedback_id = "";
  chat_id = chat_id;
  message_id = "msg_1";
  score = score;
  note = note;
  metadata = "";
  created_at = "";
  updated_at = "";
}

abbrev stored : String → String → String → Feedback
stored chat_id score note = record (given chat_id score note) {
  feedback_id = "feedback_0a1b";
  metadata = "{}";
  created_at = "2026-01-02T03:04:05Z";
  updated_at = "2026-01-02T03:04:05Z";
}

abbrev with_row : World → Feedback → World
with_row w f = record w { db = record start.db { chat_feedback = f ∷ [] } }

abbrev rated_up : World
rated_up = with_row (record start { tick = 4 }) (stored "chat_1" "up" "")

first : upsert_feedback (given "chat_1" "up" "") start ≡ ok (stored "chat_1" "up" "") rated_up
unfolding upsert_feedback upsert_row ◌>>=◌ refuse_if is_empty Table.find Table.insert
first = refl

-- the row keeps its chat, and the feedback that is returned does not
abbrev rated_down : World
rated_down = with_row (record start { tick = 7 }) (stored "chat_1" "down" "wrong sum")

second :
    upsert_feedback (given "chat_2" "down" "wrong sum") rated_up
    ≡ ok (stored "chat_2" "down" "wrong sum") rated_down
unfolding upsert_feedback upsert_row ◌>>=◌ refuse_if is_empty Table.find Table.update
second = refl

upsert_feedback-IsRated_example :
    IsRated
      (given "chat_2" "down" "wrong sum")
      (stored "chat_2" "down" "wrong sum")
      "2026-01-02T03:04:05Z"
      rated_up.db
      rated_down.db
upsert_feedback-IsRated_example =
    upsert_feedback-IsRated (given "chat_2" "down" "wrong sum") rated_up second
