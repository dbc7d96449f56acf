-- ===== src/Worklocks/Exclusive.antt =====
-- internal/worklocks/store.go: that a resource of a run has one holder at most, and when a lock is
-- given, refused and given back.
use nomici_orchestrator.Common.{
  ◌≤◌, String, ◌==◌, ==_comm, eq_iff, ◌≡◌, refl, true, false, ◌&&◌, some, List, [], ◌∷◌, arith, any,
  Bool-cases, map-eq-some, inl, inr,
}
use nomici_orchestrator.Common.Table
use nomici_orchestrator.Common.Table.{NoClash, touch}
use nomici_orchestrator.Common.Table.Laws.{NoClash-insert, NoClash-update}
use nomici_orchestrator.Store.{Db, World, final, exec}
use nomici_orchestrator.Store.Moves.{
  Moves, moves_rules, Moves-exec, Moves-exec_insert, Carries, Carries-Preorder,
}
use nomici_orchestrator.Store.Rows.{Lock}
use nomici_orchestrator.Worklocks.{
  AcquireRequest, acquire, release, holds, clash, status_held, status_released, insert_lock,
  release_lock,
}

-- The unique indexes of the lock table hold.
abbrev pub IsExclusive : Db → Type 0
IsExclusive db = NoClash clash db.workspace_locks

clash_comm : (a b : Lock) → clash a b ≡ clash b a
clash_comm a b =
    ground
      (arith, ==_comm a.lock_id b.lock_id, ==_comm a.run_id b.run_id, ==_comm a.resource b.resource)

insert_lock-IsExclusive :
    (l : Lock) (a b : Db) → insert_lock l a ≡ some b → IsExclusive a → IsExclusive b
unfolding insert_lock
insert_lock-IsExclusive l a b e h =
    let (rows, inserted, same) = map-eq-some _ (Table.insert clash l a.workspace_locks) e in
    rw (← same) (NoClash-insert clash clash_comm l a.workspace_locks inserted h)

release_apart :
    (at lock_id : String) (a b : Lock)
    → clash a b ≡ false
    → clash
        (touch
          (λ l. l.lock_id == lock_id && l.status == status_held)
          (λ l. record l { status = status_released; released_at = at })
          a)
        (touch
          (λ l. l.lock_id == lock_id && l.status == status_held)
          (λ l. record l { status = status_released; released_at = at })
          b)
      ≡ false
release_apart at lock_id a b h = ground arith

pub acquire-IsExclusive : (request : AcquireRequest) → Moves (Carries IsExclusive) (acquire request)
unfolding acquire
acquire-IsExclusive request =
    search (moves_rules, Moves-exec_insert, Carries-Preorder, insert_lock-IsExclusive) depth 9

pub release-IsExclusive : (lock_id : String) → Moves (Carries IsExclusive) (release lock_id)
unfolding release
release-IsExclusive lock_id = search (moves_rules, Carries-Preorder, release_step) depth 9
  where
    release_step : (at : String) → Moves (Carries IsExclusive) (exec (release_lock at lock_id))
    release_step at =
        Moves-exec (Carries-Preorder IsExclusive) (release_lock at lock_id)
          λ a h. NoClash-update clash _ _ (release_apart at lock_id) a.workspace_locks h

-- What a client may ask of the store, and the world after a list of such calls, whatever each of
-- them returns.
pub data LockCall : Type 0 where
  acquires : AcquireRequest → LockCall
  releases : String → LockCall

pub serve : LockCall → World → World
serve (acquires request) w = final (acquire request w)
serve (releases lock_id) w = final (release lock_id w)

pub serve_all : List LockCall → World → World
serve_all [] w = w
serve_all (c ∷ cs) w = serve_all cs (serve c w)

serve-IsExclusive : (c : LockCall) (w : World) → IsExclusive w.db → IsExclusive (serve c w).db
unfolding serve
serve-IsExclusive (acquires request) w h = (acquire-IsExclusive request).at w h
serve-IsExclusive (releases lock_id) w h = (release-IsExclusive lock_id).at w h

serve_all-IsExclusive :
    (cs : List LockCall) (w : World) → IsExclusive w.db → IsExclusive (serve_all cs w).db
unfolding serve_all
serve_all-IsExclusive [] w h = h
serve_all-IsExclusive (c ∷ cs) w h = serve_all-IsExclusive cs (serve c w) (serve-IsExclusive c w h)

module _ (run_id resource : String) where
  -- A holder is refused beside another one.
  pub no_other_holder :
      (l : Lock) (rs : List Lock)
      → holds run_id resource l ≡ true
      → any (clash l) rs ≡ false
      → any (holds run_id resource) rs ≡ false
  no_other_holder l [] h e = refl
  no_other_holder l (x ∷ rs) h e = ground (
    arith,
    no_other_holder l rs,
    eq_iff l.run_id run_id,
    eq_iff l.resource resource,
    eq_iff x.run_id run_id,
    eq_iff x.resource resource,
    eq_iff l.run_id x.run_id,
    eq_iff l.resource x.resource,
  )

  affected-none :
      (rs : List Lock)
      → any (holds run_id resource) rs ≡ false
      → Table.affected (holds run_id resource) rs ≡ 0
  unfolding Table.affected
  affected-none [] e = refl
  affected-none (x ∷ rs) e = ground (arith, affected-none rs)

  holders-le-one :
      (rs : List Lock) → NoClash clash rs → Table.affected (holds run_id resource) rs ≤ 1
  unfolding Table.affected
  holders-le-one [] h = omega arith
  holders-le-one (x ∷ rs) h = elim (Bool-cases (holds run_id resource x)) [
    | inl e ↦ rw e (omega (arith, affected-none rs (no_other_holder x rs e h.0)))
    | inr e ↦ rw e (holders-le-one rs h.1)
  ]

-- Whatever locks are asked for and given back, whatever identifiers are drawn and whatever
-- statements fail: from a table whose unique indexes hold, a resource of a run is held by one lock
-- at most.
pub one_holder :
    (calls : List LockCall) (w : World) (run_id resource : String)
    → IsExclusive w.db
    → Table.affected (holds run_id resource) (serve_all calls w).db.workspace_locks ≤ 1
one_holder calls w run_id resource h =
    holders-le-one run_id resource (serve_all calls w).db.workspace_locks
      (serve_all-IsExclusive calls w h)
