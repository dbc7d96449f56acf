-- ===== src/Chats/Rescored.antt =====
-- internal/chats/store.go UpsertFeedback: what its statement leaves in the table.
use mathlib.Core.Option
use nomici_orchestrator.Common.{
  String, ◌==◌, eq_iff, ◌≡◌, refl, sym, ◌∙◌, ap, subst, true, false, Option, none, some, List, [],
  ◌∷◌, ◌++◌, arith, any, map-eq-some, Bool-cases, inl, inr, ◌⊎◌, if◌then◌else◌,
}
use nomici_orchestrator.Common.Table
use nomici_orchestrator.Common.Table.Laws.{insert-eq-some}
use nomici_orchestrator.Common.Table.Finding.{find-none, find-some}
use nomici_orchestrator.Common.Table.Keyed.{find-added, find-refreshed}
use nomici_orchestrator.Store.{Db}
use nomici_orchestrator.Chats.Types.{Feedback}
use nomici_orchestrator.Chats.Records.{feedback_clash, on_message, rescored, upsert_row}

abbrev by_message : Feedback → String
by_message f = f.message_id

-- the feedback of a message after an upsert: the row that was there, rescored, or the new one
abbrev pub rated : Feedback → Option Feedback → Feedback
rated f none = f
rated f (some old) = rescored f old

abbrev with_feedback : Db → List Feedback → Db
with_feedback a rows = record a { chat_feedback = rows }

-- the two ways in which an upsert goes well
upsert_row-eq-some :
    (f : Feedback) (a b : Db)
    → upsert_row f a ≡ some b
    → ((any (on_message f.message_id) a.chat_feedback ≡ true)
        × (b
            ≡ with_feedback a
                (Table.update (on_message f.message_id) (rescored f) a.chat_feedback)))
      ⊎ ((any (on_message f.message_id) a.chat_feedback ≡ false)
          × (b ≡ with_feedback a (a.chat_feedback ++ f ∷ [])))
unfolding upsert_row
upsert_row-eq-some f a b h = elim (Bool-cases (any (on_message f.message_id) a.chat_feedback)) [
  | inl e ↦ inl (e, ground arith)
  | inr e ↦
      let added : Option.map (with_feedback a) (Table.insert feedback_clash f a.chat_feedback)
          ≡ some b =
        ground arith in
      let (rows, inserted, same) = map-eq-some _ _ added in
      inr (
        e,
        sym same
            ∙ ap (with_feedback a) (insert-eq-some feedback_clash f a.chat_feedback inserted).1,
      )
]

pub upsert_row-find :
    (f : Feedback) (a b : Db) (message_id : String)
    → upsert_row f a ≡ some b
    → Table.find (on_message message_id) b.chat_feedback ≡ (
        if f.message_id == message_id
        then some (rated f (Table.find (on_message message_id) a.chat_feedback))
        else Table.find (on_message message_id) a.chat_feedback)
upsert_row-find f a b message_id h = elim (upsert_row-eq-some f a b h) [
  | inl (e, same) ↦
      let (old, found) = find-some (on_message f.message_id) a.chat_feedback e in
      rw same (
        find-refreshed by_message f.message_id message_id (rescored f) a.chat_feedback (λ r. refl)
        ∙ elim (Bool-cases (f.message_id == message_id)) [
          | inl t ↦
              let there : Table.find (on_message message_id) a.chat_feedback ≡ some old =
                subst (λ x. Table.find (on_message x) a.chat_feedback ≡ some old)
                  ((eq_iff f.message_id message_id).0 t) found in
              rw (t, there) refl
          | inr t ↦ rw t refl
        ])
  | inr (e, same) ↦ rw same (
      find-added by_message message_id a.chat_feedback f e
      ∙ elim (Bool-cases (f.message_id == message_id)) [
        | inl t ↦
            let gone : Table.find (on_message message_id) a.chat_feedback ≡ none =
              subst (λ x. Table.find (on_message x) a.chat_feedback ≡ none)
                ((eq_iff f.message_id message_id).0 t)
                (find-none (on_message f.message_id) a.chat_feedback e) in
            rw (t, gone) refl
        | inr t ↦ rw t refl
      ])
]
