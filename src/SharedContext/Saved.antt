-- ===== src/SharedContext/Saved.antt =====
-- internal/sharedcontext/store.go: what a save adds to the store.
use Prim.Native.String.append
use nomici_orchestrator.Common.{
  String, ◌≡◌, refl, sym, ◌∙◌, ap, true, false, some, List, [], ◌∷◌, ◌++◌, arith, is_empty,
  if◌then◌else◌, map-eq-some, ◌^+◌, subst,
}
use nomici_orchestrator.Common.Table
use nomici_orchestrator.Common.Table.Laws.{insert-eq-some}
use nomici_orchestrator.Store.{Db, World, ok, next, new_id, pure}
use nomici_orchestrator.Store.Inversion.{
  bind-eq-ok, refuse_if-eq-ok, pure-eq-ok, now-eq-ok, exec_insert-eq-ok,
}
use nomici_orchestrator.SharedContext.Types.{Item}
use nomici_orchestrator.SharedContext.Redaction.{Pattern, prepare_item, prepared_item}
use nomici_orchestrator.SharedContext.Items.{clash, insert_item, stamped_item, save_item}

-- An item that has no identifier and no time is saved as it is prepared, with a new identifier and the
-- time, behind the other items; nothing else of the database changes.
pub record IsSaved (patterns : List Pattern) (item : Item) (w w' : World) (saved : Item)
    : Type 0 where
  pub stamped : saved ≡ stamped_item (prepared_item patterns item) saved.context_id saved.created_at
  pub named : is_empty saved.context_id ≡ false
  pub added : w'.db ≡ record w.db { context_items = w.db.context_items ++ saved ∷ [] }
  pub env : w'.env ≡ w.env

ctx-named : (r : String) → is_empty ("ctx" ^+ "_" ^+ r) ≡ false
unfolding is_empty
ctx-named r = rw (append.cons "c" "tx" ("_" ^+ r)) refl

new_id-named :
    (w : World) {id : String} {w' : World}
    → new_id "ctx" w ≡ ok id w'
    → (is_empty id ≡ false) × (w'.db ≡ w.db) × (w'.env ≡ w.env)
unfolding new_id
new_id-named w {id} h =
    let same : id ≡ "ctx" ^+ "_" ^+ w.env.random w.tick = ground arith in
    (rw same (ctx-named (w.env.random w.tick)), ground arith, ground arith)

insert_item-eq-some :
    (item : Item) (a b : Db)
    → insert_item item a ≡ some b
    → b ≡ record a { context_items = a.context_items ++ item ∷ [] }
unfolding insert_item
insert_item-eq-some item a b h =
    let (rows, inserted, same) = map-eq-some _ (Table.insert clash item a.context_items) h in
    sym same
    ∙ ap (λ r. record a { context_items = r })
        (insert-eq-some clash item a.context_items inserted).1

-- the parts of a save that goes well, put together
stamped_item-IsSaved :
    (patterns : List Pattern) (item prepared saved : Item) (id at : String) (w w₃ w' : World)
    (b : Db)
    → is_empty item.created_at ≡ true
    → prepared ≡ prepared_item patterns item
    → is_empty id ≡ false
    → w₃.db ≡ w.db
    → w₃.env ≡ w.env
    → saved ≡ stamped_item prepared id at
    → insert_item (stamped_item prepared id at) w₃.db ≡ some b
    → w' ≡ record (next w₃) { db = b }
    → IsSaved patterns item w w' saved
unfolding prepared_item
stamped_item-IsSaved patterns item prepared saved id at w w₃ w' b no_time made named db env is new
      after =
    record {
      stamped = rw (is, made, no_time) refl;
      named = rw is named;
      added = ap (λ (x : World). x.db) after ∙ insert_item-eq-some _ w₃.db b new ∙ rw (db, is) refl;
      env = ap (λ (x : World). x.env) after ∙ env;
    }

pub save_item-IsSaved :
    (patterns : List Pattern) (item : Item) (w : World) {saved : Item} {w' : World}
    → is_empty item.context_id ≡ true
    → is_empty item.created_at ≡ true
    → save_item patterns item w ≡ ok saved w'
    → IsSaved patterns item w w' saved
unfolding save_item prepare_item prepared_item
save_item-IsSaved patterns item w {saved} {w'} no_id no_time h =
    let (prepared, w₁, made, h₁) = bind-eq-ok _ _ w h in
    let (_, w₀, refused, m₁) = bind-eq-ok _ _ w made in
    let (prepared_is, w₁_is) = pure-eq-ok _ w₀ m₁ in
    let (id, w₂, drawn, h₂) = bind-eq-ok _ _ w₁ h₁ in
    let (at, w₃, told, h₃) = bind-eq-ok _ _ w₂ h₂ in
    let (_, w₄, inserted, h₄) = bind-eq-ok _ _ w₃ h₃ in
    let (saved_is, w'_is) = pure-eq-ok _ w₄ h₄ in
    let (b, new, w₄_is) = exec_insert-eq-ok _ w₃ inserted in
    let (named, db, env) =
      fresh prepared.context_id w₁ (ap (λ (i : Item). is_empty i.context_id) prepared_is ∙ no_id)
        drawn in
    let same : w₁ ≡ w = w₁_is ∙ (refuse_if-eq-ok _ _ w refused).1 in
    let told_is : w₃ ≡ next w₂ = (now-eq-ok w₂ told).1 in
    stamped_item-IsSaved patterns item prepared saved id at w w₃ w' b no_time prepared_is named
      (ap (λ (x : World). x.db) told_is ∙ db ∙ ap (λ (x : World). x.db) same)
      (ap (λ (x : World). x.env) told_is ∙ env ∙ ap (λ (x : World). x.env) same) saved_is new
      (w'_is ∙ w₄_is)
  where
    fresh :
        (context_id : String) (v : World) {id : String} {v' : World}
        → is_empty context_id ≡ true
        → (if is_empty context_id then new_id "ctx" else pure context_id) v ≡ ok id v'
        → (is_empty id ≡ false) × (v'.db ≡ v.db) × (v'.env ≡ v.env)
    fresh context_id v {id} {v'} e k =
        new_id-named v (subst (λ c. (if c then new_id "ctx" else pure context_id) v ≡ ok id v') e k)
