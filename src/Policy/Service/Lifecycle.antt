-- ===== src/Policy/Service/Lifecycle.antt =====
-- internal/policy/service.go: the life of an approval.
use nomici_orchestrator.Common.{
  sym, String, ◌==◌, eq_iff, ◌≡◌, refl, inl, inr, true, not, Option, none, some, List, [], ◌∷◌,
  arith, All, is_empty, Bool-cases,
}
use nomici_orchestrator.Common.Table
use nomici_orchestrator.Common.Table.{NoClash, touch, Extends}
use nomici_orchestrator.Common.Table.Laws.{find-eq-some, All-always, find-key}
use nomici_orchestrator.Common.Table.Selecting.{All-select, All-order_by}
use nomici_orchestrator.Paths.{Host}
use nomici_orchestrator.Store.{
  Db, World, ok, final, next, Exec, exec, now, wrong_status, ◌>>=◌, ◌>>◌, refuse_if,
}
use nomici_orchestrator.Store.Moves.{
  Moves, moves_rules, Moves-exec_insert, Moves-pure, Moves-bind, Moves-refuse_if,
}
use nomici_orchestrator.Store.Leads.{
  Leads, Moves-Leads, Leads-Moves, bind-Leads, exec-Leads, now-Leads, query-Leads, refuse_if-Leads,
}
use nomici_orchestrator.Store.Inversion.{read-eq-ok}
use nomici_orchestrator.Store.Rows.{Approval}
use nomici_orchestrator.Policy.Types.{ActionRequest, status_pending, scope_once, scope_run}
use nomici_orchestrator.Policy.Classify.{Verdict}
use nomici_orchestrator.Policy.Service.Evolution.{
  Evolves, IsUnique, Progress, Progress-Preorder, insert-Progress, update-Progress,
}
use nomici_orchestrator.Policy.Service.{
  has_id, update_approval, get, scan_grants, grants, find_usable_grant, save_approval, decide,
  check, grant, deny,
}

-- the row is in the database as it was read
abbrev Current : Db → Approval → Type 0
Current db a = Table.find (has_id a.approval_id) db.approvals ≡ some a

consume_step :
    (a : Approval) (at : String) (db : Db)
    → Current db a
    → is_empty a.consumed_at ≡ true
    → Progress db (update_approval a.approval_id (λ r. record r { consumed_at = at }) db)
consume_step a at db found unused =
    update-Progress _ a db (λ x. refl) found
      (record {
        request = refl;
        resolved = inr (refl, refl);
        outcome = inl refl;
        used = inl unused;
        bound = inr refl;
      })

bind_step :
    (a : Approval) (run_id : String) (db : Db)
    → Current db a
    → is_empty a.bound_run_id ≡ true
    → Progress db (update_approval a.approval_id (λ r. record r { bound_run_id = run_id }) db)
bind_step a run_id db found unbound =
    update-Progress _ a db (λ x. refl) found
      (record {
        request = refl;
        resolved = inr (refl, refl);
        outcome = inl refl;
        used = inr refl;
        bound = inl unbound;
      })

scan_grants-Progress :
    (run_id : String) (rows : List Approval) (w : World)
    → All (Current w.db) rows
    → Leads Progress (scan_grants run_id rows) w
unfolding scan_grants
scan_grants-Progress run_id [] w h = Moves-Leads (Moves-pure Progress-Preorder none) w
scan_grants-Progress run_id (a ∷ rest) w h =
    let others = scan_grants-Progress run_id rest w h.1 in
    elim (Bool-cases (a.scope == scope_once)) [
      | inl e ↦ elim (Bool-cases (is_empty a.consumed_at)) [
        | inl unused ↦
            rw (e, unused, scan_grants)
              (now-Leads Progress-Preorder _ w λ at w' same.
                exec-Leads Progress-Preorder _ _ w' (consume_step a at w'.db (rw same h.0) unused)
                  λ _. Moves-pure Progress-Preorder _)
        | inr f ↦ rw (e, f, scan_grants) others
      ]
      | inr e ↦ elim (Bool-cases (a.scope == scope_run)) [
        | inl r ↦ elim (Bool-cases (is_empty a.bound_run_id)) [
          | inl unbound ↦
              rw (e, r, unbound, scan_grants)
                (exec-Leads Progress-Preorder _ _ w (bind_step a run_id w.db h.0 unbound)
                  λ _. Moves-pure Progress-Preorder _)
          | inr f ↦ elim (Bool-cases (a.bound_run_id == run_id)) [
            | inl g ↦
                rw (e, r, f, g, scan_grants) (Moves-Leads (Moves-pure Progress-Preorder (some a)) w)
            | inr g ↦ rw (e, r, f, g, scan_grants) others
          ]
        ]
        | inr r ↦ rw (e, r, scan_grants) others
      ]
    ]

-- the primary key may be taken for granted
given_unique :
    {A : Type 0} (m : Exec A) (w : World)
    → (IsUnique w.db → Leads Progress m w)
    → Leads Progress m w
given_unique m w h = record { to = λ u. (h u).to u }

grants-Current : (print : String) (db : Db) → IsUnique db → All (Current db) (grants print db)
unfolding grants
grants-Current print db u =
    All-order_by (Current db) _ _
      (All-select (Current db) _ db.approvals (find-key (λ a. a.approval_id) db.approvals u))

find_usable_grant-Progress :
    (print run_id : String) → Moves Progress (find_usable_grant print run_id)
unfolding find_usable_grant
find_usable_grant-Progress print run_id = Leads-Moves λ w. given_unique _ w λ u.
    query-Leads Progress-Preorder (grants print) (scan_grants run_id) w λ w' same.
      scan_grants-Progress run_id (grants print w.db) w' (rw same (grants-Current print w.db u))

decide-Progress :
    (action : ActionRequest) (verdict : Verdict) (print : String) (found : Option Approval)
    → Moves Progress (decide action verdict print found)
unfolding decide save_approval
decide-Progress action verdict print (some g) = search (moves_rules, Progress-Preorder)
decide-Progress action verdict print none =
    search (moves_rules, Moves-exec_insert, Progress-Preorder, insert-Progress) depth 9

-- A check files a new approval, or uses one up, and does nothing else to the approvals that are
-- there.
pub check-Progress : (host : Host) (request : ActionRequest) → Moves Progress (check host request)
unfolding check
check-Progress host request =
    search (moves_rules, Progress-Preorder, find_usable_grant-Progress, decide-Progress) depth 9

pub get-eq-ok :
    (approval_id : String) (w : World) {a : Approval} {w' : World}
    → get approval_id w ≡ ok a w'
    → (Table.find (has_id approval_id) w.db.approvals ≡ some a) × (w' ≡ next w)
unfolding get
get-eq-ok approval_id w h = read-eq-ok (λ db. Table.find (has_id approval_id) db.approvals) w h

get-Progress : (approval_id : String) → Moves Progress (get approval_id)
unfolding get
get-Progress approval_id = search (moves_rules, Progress-Preorder)

-- A row that is read by an identifier has it.
found_id :
    (approval_id : String) (a : Approval) (db : Db)
    → Table.find (has_id approval_id) db.approvals ≡ some a
    → approval_id ≡ a.approval_id
found_id approval_id a db e = sym (
    (eq_iff a.approval_id approval_id).0
      (find-eq-some (λ _. Unit) (has_id approval_id) db.approvals e
        (All-always _ (λ _. tt) db.approvals)).1)

module _ (approval_id : String) (f : String → Approval → Approval) where
  -- the part that grant and deny share, from the reading of the approval on
  resolve : Exec Approval
  resolve = do
    approval ← get approval_id
    refuse_if (not (approval.status == status_pending)) (wrong_status approval.status)
    at ← now
    exec (update_approval approval_id (f at))
    get approval_id

  resolve-Progress :
      ((at : String) (x : Approval) → (f at x).approval_id ≡ x.approval_id)
      → ((at : String) (a : Approval) → a.status ≡ status_pending → Evolves a (f at a))
      → Moves Progress resolve
  unfolding resolve
  resolve-Progress keeps step = Leads-Moves λ w.
      bind-Leads Progress-Preorder (get approval_id) _ w (Moves-Leads (get-Progress approval_id) w)
        λ a w' read.
          let (found, same) = get-eq-ok approval_id w read in
          refuse_if-Leads Progress-Preorder _ _ _ w' λ pending.
            now-Leads Progress-Preorder _ w' λ at w'' same'.
              exec-Leads Progress-Preorder _ _ w''
                (let named = found_id approval_id a w.db found in
                  rw (same', same, named)
                    (update-Progress (f at) a w.db (keeps at) (rw named at found)
                      (step at a (ground (arith, eq_iff a.status status_pending)))))
                λ _. get-Progress approval_id

grant-Progress : (approval_id wanted : String) → Moves Progress (grant approval_id wanted)
unfolding grant resolve
grant-Progress approval_id wanted =
    Moves-bind Progress-Preorder _ _ (Moves-refuse_if Progress-Preorder _ _) λ _.
      resolve-Progress approval_id _ (λ at x. refl)
        λ at a pending. record {
          request = refl;
          resolved = inl pending;
          outcome = inr (inl refl);
          used = inr refl;
          bound = inr refl;
        }

deny-Progress : (approval_id : String) → Moves Progress (deny approval_id)
unfolding deny resolve
deny-Progress approval_id =
    resolve-Progress approval_id _ (λ at x. refl)
      λ at a pending. record {
        request = refl;
        resolved = inl pending;
        outcome = inr (inr refl);
        used = inr refl;
        bound = inr refl;
      }

-- What a client may ask of the service, and the world after a list of such calls, whatever each of
-- them returns.
pub data PolicyCall : Type 0 where
  checks : Host → ActionRequest → PolicyCall
  grants_one : String → String → PolicyCall
  denies : String → PolicyCall

unfoldable pub serve : PolicyCall → World → World
serve (checks host request) w = final (check host request w)
serve (grants_one approval_id scope) w = final (grant approval_id scope w)
serve (denies approval_id) w = final (deny approval_id w)

pub serve_all : List PolicyCall → World → World
serve_all [] w = w
serve_all (c ∷ cs) w = serve_all cs (serve c w)

pub serve-Progress : (c : PolicyCall) (w : World) → Progress w.db (serve c w).db
unfolding serve
serve-Progress (checks host request) w = (check-Progress host request).at w
serve-Progress (grants_one approval_id scope) w = (grant-Progress approval_id scope).at w
serve-Progress (denies approval_id) w = (deny-Progress approval_id).at w

-- Whatever is checked, granted and denied, and whatever fails: from a database in which the primary
-- key of approvals holds, it goes on to hold, every approval stays in its place with the request
-- that it was made for, its status moves at most once, from pending to granted or to denied, its
-- scope stays once it is resolved, and a use or a bound run that is recorded is never changed.
pub approvals_progress :
    (calls : List PolicyCall) (w : World)
    → IsUnique w.db
    → IsUnique (serve_all calls w).db
      × Extends Evolves w.db.approvals (serve_all calls w).db.approvals
unfolding serve_all
approvals_progress [] w = Progress-Preorder.same w.db
approvals_progress (c ∷ cs) w =
    Progress-Preorder.trans w.db (serve c w).db (serve_all cs (serve c w)).db (serve-Progress c w)
      (approvals_progress cs (serve c w))
