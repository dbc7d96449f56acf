-- ===== src/Blocked/Closed.antt =====
-- internal/blocked/store.go: that an action is answered once.
use nomici_orchestrator.Common.{
  String, ◌==◌, eq_iff, ◌≡◌, refl, ◌⊎◌, inl, inr, Bool, true, ◌&&◌, some, List, [], ◌∷◌, arith,
  map-eq-some, if◌then◌else◌, is_empty,
}
use nomici_orchestrator.Common.Table
use nomici_orchestrator.Common.Table.{Extends}
use nomici_orchestrator.Common.Table.Laws.{All-always}
use nomici_orchestrator.Common.Table.Extending.{
  Extends-refl, Extends-trans, Extends-insert, Extends-update,
}
use nomici_orchestrator.Store.{Db, World, final, pure, ◌>>◌}
use nomici_orchestrator.Store.Moves.{Preorder, Moves, moves_rules, Moves-exec, Moves-exec_insert}
use nomici_orchestrator.Store.Rows.{Action}
use nomici_orchestrator.Blocked.{
  CreateRequest, status_open, clash, insert_action, update_actions, with_status, set_status, create,
  get, resolve, reject, resolve_by_approval, resolve_by_artifact,
}

-- What may become of an action: it is as it was, or it was open and what it asks for is as it was.
pub record Answers (a b : Action) : Type 0 where
  pub once : (a.status ≡ status_open) ⊎ (b ≡ a)
  pub request : b ≡ record a {
    status = b.status;
    updated_at = b.updated_at;
    resolved_at = b.resolved_at;
    metadata = b.metadata;
  }

Answers-refl : (a : Action) → Answers a a
Answers-refl a = record { once = inr refl; request = refl }

Answers-trans : (a b c : Action) → Answers a b → Answers b c → Answers a c
Answers-trans a b c h k = ground arith

abbrev pub Progress : Db → Db → Type 0
Progress a b = Extends Answers a.blocked_actions b.blocked_actions

Progress-Preorder : Preorder Progress
Progress-Preorder = record {
  same = λ a. Extends-refl Answers Answers-refl a.blocked_actions;
  trans = λ a b c h k.
      Extends-trans Answers Answers-trans a.blocked_actions b.blocked_actions c.blocked_actions h k;
}

insert_action-Progress : (r : Action) (a b : Db) → insert_action r a ≡ some b → Progress a b
unfolding insert_action
insert_action-Progress r a b e =
    let (rows, inserted, same) = map-eq-some _ (Table.insert clash r a.blocked_actions) e in
    rw (← same) (Extends-insert Answers Answers-refl clash r a.blocked_actions inserted)

update_actions-Progress :
    (p : Action → Bool) (status at metadata : String) (db : Db)
    → Progress db
        (update_actions (λ a. p a && a.status == status_open) (with_status status at metadata) db)
unfolding update_actions
update_actions-Progress p status at metadata db =
    Extends-update Answers Answers-refl _ _ db.blocked_actions (
      All-always _
        (λ a e. record {
          once = inl ((eq_iff a.status status_open).0 (both (p a) _ e));
          request = refl;
        })
        db.blocked_actions)
  where
    both : (b c : Bool) → b && c ≡ true → c ≡ true
    both b c h = ground arith

set_status-Progress :
    (p : Action → Bool) (status metadata : String) → Moves Progress (set_status p status metadata)
unfolding set_status
set_status-Progress p status metadata =
    search (moves_rules, Moves-exec, Progress-Preorder, update_actions-Progress) depth 9

get-Progress : (action_id : String) → Moves Progress (get action_id)
unfolding get
get-Progress action_id = search (moves_rules, Progress-Preorder)

answered :
    (p : Action → Bool) (status metadata action_id : String)
    → Moves Progress (set_status p status metadata >> get action_id)
answered p status metadata action_id =
    search (moves_rules, Progress-Preorder, set_status-Progress, get-Progress) depth 6

if_named :
    (id : String) (p : Action → Bool) (status metadata : String)
    → Moves Progress (if is_empty id then pure tt else set_status p status metadata)
if_named id p status metadata = search (moves_rules, Progress-Preorder, set_status-Progress) depth 6

create-Progress : (request : CreateRequest) → Moves Progress (create request)
unfolding create
create-Progress request =
    search (moves_rules, Moves-exec_insert, Progress-Preorder, insert_action-Progress) depth 12

-- What a client may ask of the store, and the world after a list of such calls, whatever each of them
-- returns.
pub data ActionCall : Type 0 where
  creates : CreateRequest → ActionCall
  resolves : String → String → ActionCall
  rejects : String → String → ActionCall
  resolves_by_approval : String → String → ActionCall
  resolves_by_artifact : String → ActionCall

pub serve : ActionCall → World → World
serve (creates request) w = final (create request w)
serve (resolves action_id metadata) w = final (resolve action_id metadata w)
serve (rejects action_id metadata) w = final (reject action_id metadata w)
serve (resolves_by_approval approval_id status) w = final (resolve_by_approval approval_id status w)
serve (resolves_by_artifact artifact_id) w = final (resolve_by_artifact artifact_id w)

pub serve_all : List ActionCall → World → World
serve_all [] w = w
serve_all (c ∷ cs) w = serve_all cs (serve c w)

serve-Progress : (c : ActionCall) (w : World) → Progress w.db (serve c w).db
unfolding serve resolve reject resolve_by_approval resolve_by_artifact
serve-Progress (creates request) w = (create-Progress request).at w
serve-Progress (resolves action_id metadata) w = (answered _ _ _ action_id).at w
serve-Progress (rejects action_id metadata) w = (answered _ _ _ action_id).at w
serve-Progress (resolves_by_approval approval_id status) w = (if_named approval_id _ _ _).at w
serve-Progress (resolves_by_artifact artifact_id) w = (if_named artifact_id _ _ _).at w

-- Whatever actions are asked for, resolved and rejected, and whatever fails: every action stays in its
-- place with what it asks for, and once it is no longer open nothing of it changes any more.
pub answered_once :
    (calls : List ActionCall) (w : World)
    → Extends Answers w.db.blocked_actions (serve_all calls w).db.blocked_actions
unfolding serve_all
answered_once [] w = Progress-Preorder.same w.db
answered_once (c ∷ cs) w =
    Progress-Preorder.trans w.db (serve c w).db (serve_all cs (serve c w)).db (serve-Progress c w)
      (answered_once cs (serve c w))
