-- ===== src/Chats/Records.antt =====
-- internal/chats/store.go: the operations on chats. A limit that is not positive is 0 here.
use mathlib.Core.Option
use nomici_orchestrator.Common.{
  ℕ, String, ◌==◌, Bool, ◌&&◌, ◌||◌, Option, none, some, List, any, take, is_empty, str_lt, ◌=ℕ=◌,
  if◌then◌else◌,
}
use nomici_orchestrator.Common.Table
use nomici_orchestrator.Store.{
  Db, required, Exec, pure, now, new_id, exec, exec_insert, query, refuse_if, row, ◌>>=◌, ◌>>◌,
}
use nomici_orchestrator.Chats.Types.{Thread, Message, Feedback, Detail, thread_status_active}

abbrev pub thread_clash : Thread → Thread → Bool
thread_clash a b = a.chat_id == b.chat_id

abbrev pub message_clash : Message → Message → Bool
message_clash a b = a.message_id == b.message_id

abbrev pub feedback_clash : Feedback → Feedback → Bool
feedback_clash a b = a.feedback_id == b.feedback_id

abbrev pub has_chat : String → Thread → Bool
has_chat chat_id t = t.chat_id == chat_id

abbrev pub on_message : String → Feedback → Bool
on_message message_id f = f.message_id == message_id

unfoldable pub insert_thread : Thread → Db → Option Db
insert_thread t db =
    Option.map (λ rows. record db { chat_threads = rows })
      (Table.insert thread_clash t db.chat_threads)

unfoldable pub create_thread : String → String → Exec Thread
create_thread title metadata = do
  at ← now
  chat_id ← new_id "chat"
  let thread : Thread = record {
    chat_id = chat_id;
    title = if is_empty title then "New chat" else title;
    status = thread_status_active;
    created_at = at;
    updated_at = at;
    metadata = if is_empty metadata then "{}" else metadata;
  }
  exec_insert (insert_thread thread)
  pure thread

unfoldable pub insert_message : Message → Db → Option Db
insert_message m db =
    Option.map (λ rows. record db { chat_messages = rows })
      (Table.insert message_clash m db.chat_messages)

unfoldable pub touch_thread : String → String → Db → Db
touch_thread chat_id at db = record db {
  chat_threads =
      Table.update (has_chat chat_id) (λ t. record t { updated_at = at }) db.chat_threads;
}

-- AddMessage, which returns the message as it is changed in place
unfoldable pub add_message : Message → Exec Message
add_message m = do
  refuse_if (is_empty m.chat_id) (required "chat_id")
  refuse_if (is_empty m.role) (required "role")
  at ← now
  message_id ← (if is_empty m.message_id then new_id "msg" else pure m.message_id)
  let added : Message = record m {
    message_id = message_id;
    metadata = if is_empty m.metadata then "{}" else m.metadata;
    created_at = at;
  }
  exec_insert (insert_message added)
  exec (touch_thread m.chat_id at)
  pure added

unfoldable pub set_message_run : String → String → String → Db → Db
set_message_run message_id run_id session_id db = record db {
  chat_messages =
      Table.update (λ m. m.message_id == message_id)
        (λ m. record m { run_id = run_id; session_id = session_id }) db.chat_messages;
}

unfoldable pub update_message_run : String → String → String → Exec Unit
update_message_run message_id run_id session_id = do
  refuse_if (is_empty message_id) (required "message_id")
  exec (set_message_run message_id run_id session_id)

-- the DO UPDATE SET of UpsertFeedback
abbrev pub rescored : Feedback → Feedback → Feedback
rescored new old = record old {
  score = new.score;
  note = new.note;
  metadata = new.metadata;
  updated_at = new.updated_at;
}

-- INSERT … ON CONFLICT(message_id) DO UPDATE: feedback on the same message is rescored; otherwise the
-- primary key may refuse the new row.
unfoldable pub upsert_row : Feedback → Db → Option Db
upsert_row f db =
    if any (on_message f.message_id) db.chat_feedback
    then some (record db {
      chat_feedback = Table.update (on_message f.message_id) (rescored f) db.chat_feedback;
    })
    else Option.map (λ rows. record db { chat_feedback = rows })
        (Table.insert feedback_clash f db.chat_feedback)

abbrev pub stored_feedback : Feedback → Option Feedback → String → String → Feedback
stored_feedback f existing feedback_id at = record f {
  feedback_id = feedback_id;
  metadata = if is_empty f.metadata then "{}" else f.metadata;
  created_at = elim existing [ none ↦ at | some old ↦ old.created_at ];
  updated_at = at;
}

abbrev pub feedback_id_of : Option Feedback → Exec String
feedback_id_of none = new_id "feedback"
feedback_id_of (some old) = pure old.feedback_id

-- UpsertFeedback, which returns the feedback as it is changed in place
unfoldable pub upsert_feedback : Feedback → Exec Feedback
upsert_feedback f = do
  refuse_if (is_empty f.chat_id) (required "chat_id")
  refuse_if (is_empty f.message_id) (required "message_id")
  refuse_if (is_empty f.score) (required "score")
  at ← now
  existing ← query (λ db. Table.find (on_message f.message_id) db.chat_feedback)
  feedback_id ← feedback_id_of existing
  let stored = stored_feedback f existing feedback_id at
  exec_insert (upsert_row stored)
  pure stored

unfoldable pub list_threads : ℕ → Exec (List Thread)
list_threads limit = query (λ db.
    take (if limit =ℕ= 0 then 20 else limit)
      (Table.order_by (λ a b. str_lt b.updated_at a.updated_at) db.chat_threads))

unfoldable pub get_thread : String → Exec Thread
get_thread chat_id = do
  found ← query (λ db. Table.find (has_chat chat_id) db.chat_threads)
  row found

abbrev pub message_before : Message → Message → Bool
message_before a b =
    str_lt a.created_at b.created_at
    || (a.created_at == b.created_at && str_lt a.message_id b.message_id)

unfoldable pub list_messages : String → Exec (List Message)
list_messages chat_id = query (λ db.
    Table.order_by message_before (Table.select (λ m. m.chat_id == chat_id) db.chat_messages))

unfoldable pub detail : String → Exec Detail
detail chat_id = do
  thread ← get_thread chat_id
  messages ← list_messages chat_id
  pure (record { thread = thread; messages = messages })
