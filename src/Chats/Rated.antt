-- ===== src/Chats/Rated.antt =====
-- internal/chats/store.go UpsertFeedback: one feedback for a message.
use nomici_orchestrator.Common.{
  String, ◌==◌, eq_iff, eq_refl, ◌≡◌, refl, sym, ◌∙◌, ap, subst, false, Option, none, some,
  is_empty, arith, if◌then◌else◌,
}
use nomici_orchestrator.Common.Table
use nomici_orchestrator.Common.Table.Finding.{find-test}
use nomici_orchestrator.Store.{Db, World, ok, new_id, pure}
use nomici_orchestrator.Store.Inversion.{
  bind-eq-ok, refuse_if-eq-ok, pure-eq-ok, now-eq-ok, query-eq-ok, exec_insert-eq-ok,
}
use nomici_orchestrator.Chats.Types.{Feedback}
use nomici_orchestrator.Chats.Records.{
  on_message, rescored, stored_feedback, feedback_id_of, upsert_row, upsert_feedback,
}
use nomici_orchestrator.Chats.Rescored.{rated, upsert_row-find}

abbrev chat_of : Feedback → Option Feedback → String
chat_of f none = f.chat_id
chat_of f (some old) = old.chat_id

-- What UpsertFeedback leaves where it returns a feedback at the time `at`. The feedback that it returns
-- has the chat, the message, the score and the note that were given. The row of the message after the
-- call is that feedback with every field, except that a row that was there keeps its chat. A row that
-- was there keeps its identifier and the time of the first feedback too. The feedback on every other
-- message is what it was.
pub record IsRated (f stored : Feedback) (at : String) (a b : Db) : Type 0 where
  pub returned : stored ≡ record {
    feedback_id = stored.feedback_id;
    chat_id = f.chat_id;
    message_id = f.message_id;
    score = f.score;
    note = f.note;
    metadata = if is_empty f.metadata then "{}" else f.metadata;
    created_at = stored.created_at;
    updated_at = at;
  }
  pub found :
      Table.find (on_message f.message_id) b.chat_feedback
      ≡ some (record stored {
        chat_id = chat_of f (Table.find (on_message f.message_id) a.chat_feedback);
      })
  pub kept :
      (old : Feedback)
      → Table.find (on_message f.message_id) a.chat_feedback ≡ some old
      → (stored.feedback_id ≡ old.feedback_id) × (stored.created_at ≡ old.created_at)
  pub first : Table.find (on_message f.message_id) a.chat_feedback ≡ none → stored.created_at ≡ at
  pub others :
      (message_id : String)
      → f.message_id == message_id ≡ false
      → Table.find (on_message message_id) b.chat_feedback
        ≡ Table.find (on_message message_id) a.chat_feedback

-- A row that is rescored by a feedback on its message, under its own identifier, is that feedback in
-- the chat of the row.
rated-stored_feedback :
    (f : Feedback) (existing : Option Feedback) (feedback_id at : String)
    → ((old : Feedback)
        → existing ≡ some old
        → (feedback_id ≡ old.feedback_id) × (f.message_id ≡ old.message_id))
    → rated (stored_feedback f existing feedback_id at) existing
      ≡ record (stored_feedback f existing feedback_id at) { chat_id = chat_of f existing }
rated-stored_feedback f none feedback_id at same = refl
rated-stored_feedback f (some old) feedback_id at same =
    let (id, message) = same old refl in
    ap
      (λ (x : String). record (rescored (stored_feedback f (some old) feedback_id at) old) {
        feedback_id = x;
      })
      (sym id)
    ∙ ap
        (λ (x : String). record (rescored (stored_feedback f (some old) feedback_id at) old) {
          feedback_id = feedback_id;
          message_id = x;
        })
        (sym message)

row-IsRated :
    (f : Feedback) (feedback_id at : String) (a b : Db)
    → ((old : Feedback)
        → Table.find (on_message f.message_id) a.chat_feedback ≡ some old
        → feedback_id ≡ old.feedback_id)
    → upsert_row
        (stored_feedback f (Table.find (on_message f.message_id) a.chat_feedback) feedback_id at)
        a
      ≡ some b
    → IsRated f
        (stored_feedback f (Table.find (on_message f.message_id) a.chat_feedback) feedback_id at)
        at
        a
        b
row-IsRated f feedback_id at a b same h =
    let before = Table.find (on_message f.message_id) a.chat_feedback in
    record {
      returned = refl;
      found =
          upsert_row-find _ a b f.message_id h
          ∙ (ap
                (λ t.
                  if t
                  then some (rated (stored_feedback f before feedback_id at) before)
                  else before)
                (eq_refl f.message_id)
              ∙ ap some (
                  rated-stored_feedback f before feedback_id at (λ old there. (
                    same old there,
                    sym (
                        (eq_iff old.message_id f.message_id).0
                          (find-test (on_message f.message_id) a.chat_feedback there)),
                  ))));
      kept = λ old there. (same old there, rw there refl);
      first = λ gone. rw gone refl;
      others = λ message_id other. upsert_row-find _ a b message_id h ∙ rw other refl;
    }

feedback_id_of-eq-ok :
    (o : Option Feedback) (w : World) {id : String} {w' : World}
    → feedback_id_of o w ≡ ok id w'
    → ((old : Feedback) → o ≡ some old → id ≡ old.feedback_id) × (w'.db ≡ w.db)
unfolding new_id pure
feedback_id_of-eq-ok none w h = (λ old e. absurd (ground arith), ground arith)
feedback_id_of-eq-ok (some f) w h = (λ old e. ground arith, ground arith)

ended :
    (f stored : Feedback) (existing : Option Feedback) (feedback_id at time : String) (a a' b : Db)
    → existing ≡ Table.find (on_message f.message_id) a.chat_feedback
    → a' ≡ a
    → at ≡ time
    → stored ≡ stored_feedback f existing feedback_id at
    → ((old : Feedback) → existing ≡ some old → feedback_id ≡ old.feedback_id)
    → upsert_row (stored_feedback f existing feedback_id at) a' ≡ some b
    → IsRated f stored time a b
ended f stored existing feedback_id at time a a' b is same told stored_is kept h =
    let stored_too = stored_is ∙ ap (λ o. stored_feedback f o feedback_id at) is in
    subst (λ t. IsRated f stored t a b) told
      (rw stored_too (
        row-IsRated f feedback_id at a b (λ old there. kept old (is ∙ there))
          (subst (λ o. upsert_row (stored_feedback f o feedback_id at) a ≡ some b) is
            (subst (λ d. upsert_row (stored_feedback f existing feedback_id at) d ≡ some b) same
              h))))

-- Where UpsertFeedback returns, the feedback that it returns is what was given, with "{}" for metadata
-- that are empty and the time of the call. Afterwards the row of its message is that feedback in every
-- field but the chat, which a row that was there keeps: on such a message the feedback that is returned
-- may name another chat than the row. A row that was there keeps its identifier and the time of the
-- first feedback, a new row has the time of the call, and the feedback on every other message is what
-- it was.
pub upsert_feedback-IsRated :
    (f : Feedback) (w : World) {stored : Feedback} {w' : World}
    → upsert_feedback f w ≡ ok stored w'
    → IsRated f stored (w.env.now w.tick) w.db w'.db
unfolding upsert_feedback
upsert_feedback-IsRated f w {stored} {w'} h =
    let (_, w₁, c₁, h₁) = bind-eq-ok _ _ w h in
    let (_, w₂, c₂, h₂) = bind-eq-ok _ _ w₁ h₁ in
    let (_, w₃, c₃, h₃) = bind-eq-ok _ _ w₂ h₂ in
    let (at, w₄, told, h₄) = bind-eq-ok _ _ w₃ h₃ in
    let (existing, w₅, asked, h₅) = bind-eq-ok _ _ w₄ h₄ in
    let (feedback_id, w₆, named, h₆) = bind-eq-ok _ _ w₅ h₅ in
    let (_, w₇, done, h₇) = bind-eq-ok _ _ w₆ h₆ in
    let (stored_is, w'_is) = pure-eq-ok _ w₇ h₇ in
    let (b, upserted, w₇_is) = exec_insert-eq-ok _ w₆ done in
    let (there, w₅_is) = query-eq-ok _ w₄ asked in
    let (same, db₆) = feedback_id_of-eq-ok existing w₅ named in
    let w₃_is : w₃ ≡ w =
      (refuse_if-eq-ok _ _ w₂ c₃).1
      ∙ ((refuse_if-eq-ok _ _ w₁ c₂).1 ∙ (refuse_if-eq-ok _ _ w c₁).1) in
    let db₄ : w₄.db ≡ w.db =
      ap (λ (x : World). x.db) ((now-eq-ok w₃ told).1) ∙ ap (λ (x : World). x.db) w₃_is in
    let db : w₆.db ≡ w.db = db₆ ∙ (ap (λ (x : World). x.db) w₅_is ∙ db₄) in
    let is : existing ≡ Table.find (on_message f.message_id) w.db.chat_feedback =
      there ∙ ap (λ (d : Db). Table.find (on_message f.message_id) d.chat_feedback) db₄ in
    let time : at ≡ w.env.now w.tick =
      (now-eq-ok w₃ told).0 ∙ ap (λ (x : World). x.env.now x.tick) w₃_is in
    ended f stored existing feedback_id at (w.env.now w.tick) w.db w₆.db w'.db is db time stored_is
      same (upserted ∙ ap some (sym (ap (λ (x : World). x.db) (w'_is ∙ w₇_is))))
