-- ===== src/Policy/Service/Evolution.antt =====
-- internal/policy/service.go: what may become of an approval, and the statements that keep to it.
use nomici_orchestrator.Common.{
  eq_iff, ◌≡◌, refl, ◌⊎◌, inl, inr, true, some, arith, is_empty, map-eq-some, ==_comm,
}
use nomici_orchestrator.Common.Table
use nomici_orchestrator.Common.Table.{NoClash, touch, Extends}
use nomici_orchestrator.Common.Table.Laws.{NoClash-insert, NoClash-update, find-only, All-map}
use nomici_orchestrator.Common.Table.Extending.{
  Extends-refl, Extends-trans, Extends-insert, Extends-update,
}
use nomici_orchestrator.Store.{Db}
use nomici_orchestrator.Store.Moves.{Preorder}
use nomici_orchestrator.Store.Rows.{Approval}
use nomici_orchestrator.Policy.Types.{status_pending, status_granted, status_denied}
use nomici_orchestrator.Policy.Service.{clash, has_id, insert_approval, update_approval}

-- What may become of an approval: what was asked stays, the status moves from pending to granted or
-- denied and no further, and the scope, a use and a bound run stay once they are there.
pub record Evolves (a b : Approval) : Type 0 where
  pub request : b ≡ record a {
    status = b.status;
    scope = b.scope;
    resolved_at = b.resolved_at;
    consumed_at = b.consumed_at;
    bound_run_id = b.bound_run_id;
  }
  pub resolved : (a.status ≡ status_pending) ⊎ ((b.status ≡ a.status) × (b.scope ≡ a.scope))
  pub outcome : (b.status ≡ a.status) ⊎ (b.status ≡ status_granted) ⊎ (b.status ≡ status_denied)
  pub used : (is_empty a.consumed_at ≡ true) ⊎ (b.consumed_at ≡ a.consumed_at)
  pub bound : (is_empty a.bound_run_id ≡ true) ⊎ (b.bound_run_id ≡ a.bound_run_id)

Evolves-refl : (a : Approval) → Evolves a a
Evolves-refl a = record {
  request = refl;
  resolved = inr (refl, refl);
  outcome = inl refl;
  used = inr refl;
  bound = inr refl;
}

Evolves-trans : (a b c : Approval) → Evolves a b → Evolves b c → Evolves a c
Evolves-trans a b c h k = ground arith

-- The primary key of approvals holds.
abbrev pub IsUnique : Db → Type 0
IsUnique db = NoClash clash db.approvals

-- What an action may do to the approvals of a database in which the primary key holds.
abbrev pub Progress : Db → Db → Type 0
Progress a b = IsUnique a → IsUnique b × Extends Evolves a.approvals b.approvals

pub Progress-Preorder : Preorder Progress
Progress-Preorder = record {
  same = λ a u. (u, Extends-refl Evolves Evolves-refl a.approvals);
  trans = λ a b c h k u.
      let (v, e) = h u in
      let (x, f) = k v in
      (x, Extends-trans Evolves Evolves-trans a.approvals b.approvals c.approvals e f);
}

clash_comm : (a b : Approval) → clash a b ≡ clash b a
clash_comm a b = ==_comm a.approval_id b.approval_id

pub insert-Progress : (r : Approval) (a b : Db) → insert_approval r a ≡ some b → Progress a b
unfolding insert_approval
insert-Progress r a b e u =
    let (rows, inserted, same) = map-eq-some _ (Table.insert clash r a.approvals) e in
    rw (← same) (
      NoClash-insert clash clash_comm r a.approvals inserted u,
      Extends-insert Evolves Evolves-refl clash r a.approvals inserted,
    )

-- An UPDATE by the identifier of a row, as the row was read.
pub update-Progress :
    (f : Approval → Approval) (r : Approval) (db : Db)
    → ((x : Approval) → (f x).approval_id ≡ x.approval_id)
    → Table.find (has_id r.approval_id) db.approvals ≡ some r
    → Evolves r (f r)
    → Progress db (update_approval r.approval_id f db)
unfolding update_approval
update-Progress f r db keeps found step u = (
  NoClash-update clash (has_id r.approval_id) f
      (λ a b h. let p = keeps a in let q = keeps b in ground arith) db.approvals u,
  Extends-update Evolves Evolves-refl (has_id r.approval_id) f db.approvals (
      All-map _ _ (λ x only named. rw (only named) step) db.approvals
        (find-only clash (has_id r.approval_id)
          (λ a b p q. ground (
            arith,
            eq_iff a.approval_id r.approval_id,
            eq_iff b.approval_id r.approval_id,
            eq_iff a.approval_id b.approval_id,
          ))
          db.approvals u found)),
)
