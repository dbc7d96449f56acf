-- ===== src/Memory/Published.antt =====
-- internal/memory/store.go Approve: what is published of a proposal.
use mathlib.Core.Option
use nomici_orchestrator.Common.{
  String, ◌==◌, eq_iff, ◌≡◌, refl, sym, ◌∙◌, ap, Bool, true, false, not, some, List, [], ◌∷◌, ◌++◌,
  arith, is_empty, if◌then◌else◌,
}
use nomici_orchestrator.Common.Table
use nomici_orchestrator.Common.Table.{touch}
use nomici_orchestrator.Common.Table.Laws.{find-update}
use nomici_orchestrator.Common.Table.Finding.{find-test}
use nomici_orchestrator.Store.{
  Db, World, ◌>>=◌, row, refuse_if, Error, Exec, pure, ok, err, next, wrong_status,
}
use nomici_orchestrator.Store.Inversion.{
  bind-eq-ok, refuse_if-eq-ok, now-eq-ok, exec-eq-ok, read-eq-ok,
}
use nomici_orchestrator.Store.Steps.{query-step, bind-ok}
use nomici_orchestrator.SharedContext.Types.{Item}
use nomici_orchestrator.SharedContext.Redaction.{Pattern, prepared_item}
use nomici_orchestrator.SharedContext.Items.{stamped_item}
use nomici_orchestrator.SharedContext.Saved.{save_item-IsSaved}
use nomici_orchestrator.Memory.Types.{Proposal, status_proposed, status_approved}
use nomici_orchestrator.Memory.Proposals.{
  has_id, get, item_of, with_status, update_proposal, set_status, approve,
}

-- the effect of setStatus where it goes well
set_status-eq-ok :
    (proposal_id status context_id : String) (w : World) {p before : Proposal} {w' : World}
    → Table.find (has_id proposal_id) w.db.memory_proposals ≡ some before
    → set_status proposal_id status context_id w ≡ ok p w'
    → (at : String) × (p ≡ with_status status context_id at before)
      × (w'.db ≡ update_proposal proposal_id (with_status status context_id at) w.db)
      × (Table.find (has_id proposal_id) w'.db.memory_proposals ≡ some p)
unfolding set_status get update_proposal
set_status-eq-ok proposal_id status context_id w {p} {before} {w'} there h =
    let (at, w₁, told, h₁) = bind-eq-ok _ _ w h in
    let (_, w₂, done, h₂) = bind-eq-ok _ _ w₁ h₁ in
    let (found, w'_is) = read-eq-ok _ w₂ h₂ in
    let told_is = (now-eq-ok w told).1 in put at w₁ w₂ told_is (exec-eq-ok _ w₁ done).0 found w'_is
  where
    put :
        (at : String) (w₁ w₂ : World)
        → w₁ ≡ next w
        → w₂ ≡ record (next w₁) {
          db = update_proposal proposal_id (with_status status context_id at) w₁.db;
        }
        → Table.find (has_id proposal_id) w₂.db.memory_proposals ≡ some p
        → w' ≡ next w₂
        → (at : String) × (p ≡ with_status status context_id at before)
          × (w'.db ≡ update_proposal proposal_id (with_status status context_id at) w.db)
          × (Table.find (has_id proposal_id) w'.db.memory_proposals ≡ some p)
    put at w₁ w₂ e₁ e₂ found e' =
        let db : w₂.db ≡ update_proposal proposal_id (with_status status context_id at) w.db =
          rw (e₂, e₁) refl in
        let moved : Table.find (has_id proposal_id) w₂.db.memory_proposals
            ≡ Option.map (touch (has_id proposal_id) (with_status status context_id at))
                (Table.find (has_id proposal_id) w.db.memory_proposals) =
          rw db
            (find-update (has_id proposal_id) (has_id proposal_id) _ kept w.db.memory_proposals) in
        let is : some p
            ≡ some (touch (has_id proposal_id) (with_status status context_id at) before) =
          sym found ∙ moved ∙ ap (Option.map _) there in
        let hit : has_id proposal_id before ≡ true =
          find-test (has_id proposal_id) w.db.memory_proposals there in
        (
          at,
          some_inj is ∙ ap (λ b. if b then with_status status context_id at before else before) hit,
          ap (λ (x : World). x.db) e' ∙ db,
          ap (λ (x : World). Table.find (has_id proposal_id) x.db.memory_proposals) e' ∙ found,
        )
      where
        kept :
            (r : Proposal)
            → has_id proposal_id (touch (has_id proposal_id) (with_status status context_id at) r)
              ≡ has_id proposal_id r
        kept r = ground arith

        some_inj : {x y : Proposal} → some x ≡ some y → x ≡ y
        some_inj k = ground arith

no_id_of : (b : Proposal) → is_empty (item_of b).context_id ≡ true
unfolding item_of is_empty
no_id_of b = refl

no_time_of : (b : Proposal) → is_empty (item_of b).created_at ≡ true
unfolding item_of is_empty
no_time_of b = refl

set_status-found :
    (proposal_id status context_id : String) (w v w' : World) {p before : Proposal}
    → v.db.memory_proposals ≡ w.db.memory_proposals
    → Table.find (has_id proposal_id) w.db.memory_proposals ≡ some before
    → set_status proposal_id status context_id v ≡ ok p w'
    → (at : String) × (p ≡ with_status status context_id at before)
      × (w'.db ≡ update_proposal proposal_id (with_status status context_id at) v.db)
      × (Table.find (has_id proposal_id) w'.db.memory_proposals ≡ some p)
set_status-found proposal_id status context_id w v w' {p} {before} same there h =
    set_status-eq-ok proposal_id status context_id v {before = before} (rw same there) h

-- Where Approve returns a proposal, there was a proposal with the identifier that was still proposed.
-- One item is published: the one that is made of the proposal, prepared and redacted, with a new
-- identifier, behind the items that were there. The proposal is then approved, with the identifier of
-- the item, and is what Get finds; nothing else of the database has changed.
pub approve-eq-ok :
    (patterns : List Pattern) (proposal_id : String) (w : World) {p : Proposal} {w' : World}
    → approve patterns proposal_id w ≡ ok p w'
    → (before : Proposal) × (item : Item) × (at : String) × (Table.find
          (has_id proposal_id)
          w.db.memory_proposals
        ≡ some before)
      × (before.status ≡ status_proposed)
      × (item
          ≡ stamped_item (prepared_item patterns (item_of before)) item.context_id item.created_at)
      × (is_empty item.context_id ≡ false)
      × (p ≡ with_status status_approved item.context_id at before)
      × (w'.db
          ≡ update_proposal proposal_id
              (with_status status_approved item.context_id at)
              (record w.db { context_items = w.db.context_items ++ item ∷ [] }))
      × (Table.find (has_id proposal_id) w'.db.memory_proposals ≡ some p)
unfolding approve get
approve-eq-ok patterns proposal_id w {p} {w'} h =
    let (before, w₁, got, h₁) = bind-eq-ok _ _ w h in
    let (there, w₁_is) = read-eq-ok _ w got in
    let (_, w₂, allowed, h₂) = bind-eq-ok _ _ w₁ h₁ in
    let (proposed, w₂_is) = refuse_if-eq-ok _ _ w₁ allowed in
    let (item, w₃, saved, h₃) = bind-eq-ok _ _ w₂ h₂ in
    let is =
      save_item-IsSaved patterns (item_of before) w₂ (no_id_of before) (no_time_of before) saved in
    let db : w₂.db ≡ w.db = ap (λ (x : World). x.db) (w₂_is ∙ w₁_is) in
    let added : w₃.db ≡ record w.db { context_items = w.db.context_items ++ item ∷ [] } =
      is.added ∙ ap (λ (d : Db). record d { context_items = d.context_items ++ item ∷ [] }) db in
    let (at, p_is, moved, found) =
      set_status-found proposal_id status_approved item.context_id w w₃ w'
        (ap (λ (d : Db). d.memory_proposals) added) there h₃ in
    (
      before,
      item,
      at,
      there,
      ground (arith, proposed, eq_iff before.status status_proposed),
      is.stamped,
      is.named,
      p_is,
      moved ∙ ap (update_proposal _ _) added,
      found,
    )

get-found :
    (proposal_id : String) (w : World) {p : Proposal}
    → w.env.fails w.tick ≡ false
    → Table.find (has_id proposal_id) w.db.memory_proposals ≡ some p
    → get proposal_id w ≡ ok p (next w)
unfolding get row pure
get-found proposal_id w goes there = query-step w goes _ _ ∙ ap (λ o. row o (next w)) there

refuse_if-refused :
    (b : Bool) (e : Error) (k : Unit → Exec Proposal) (v : World)
    → b ≡ true
    → (refuse_if b e >>= k) v ≡ err e v
unfolding refuse_if ◌>>=◌
refuse_if-refused true e k v h = refl
refuse_if-refused false e k v h = absurd (ground arith)

approve-refused :
    (patterns : List Pattern) (proposal_id : String) (w : World) (p : Proposal)
    → w.env.fails w.tick ≡ false
    → Table.find (has_id proposal_id) w.db.memory_proposals ≡ some p
    → p.status ≡ status_approved
    → approve patterns proposal_id w ≡ err (wrong_status status_approved) (next w)
unfolding approve
approve-refused patterns proposal_id w p goes there status =
    bind-ok (get proposal_id) _ w (get-found proposal_id w goes there)
    ∙ refuse_if-refused (not (p.status == status_proposed)) _ _ _ (rw status refl)
    ∙ ap (λ s. err (wrong_status s) (next w)) status

-- A proposal that Approve returned is not approved twice: if the read does not fail, the next Approve
-- is refused, with the status that it found, and the database is left as it was.
pub approve-approve :
    (patterns : List Pattern) (proposal_id : String) (w : World) {p : Proposal} {w' : World}
    → approve patterns proposal_id w ≡ ok p w'
    → w'.env.fails w'.tick ≡ false
    → approve patterns proposal_id w' ≡ err (wrong_status status_approved) (next w')
approve-approve patterns proposal_id w {p} {w'} h goes =
    let (before, item, at, _, _, _, _, p_is, _, found) = approve-eq-ok patterns proposal_id w h in
    approve-refused patterns proposal_id w' p goes found (ap (λ (x : Proposal). x.status) p_is)
