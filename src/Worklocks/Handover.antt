-- ===== src/Worklocks/Handover.antt =====
-- internal/worklocks/store.go: when a lock is refused, and when it can be had again.
use nomici_orchestrator.Common.{
  ℕ, suc, String, ◌==◌, eq_iff, ==_comm, or-false_left, or-false_right, ◌≡◌, refl, true, false,
  ◌&&◌, some, List, [], ◌∷◌, ◌++◌, arith, any, Bool-cases, inl, inr, is_empty, trim_space, ◌^+◌,
  if◌then◌else◌,
}
use nomici_orchestrator.Common.Table
use nomici_orchestrator.Common.Table.{NoClash, touch}
use nomici_orchestrator.Store.{
  World, ok, err, final, next, driver, locked, ◌>>=◌, refuse_if, map_error,
}
use nomici_orchestrator.Store.Rows.{Lock}
use nomici_orchestrator.Worklocks.{
  AcquireRequest, acquire, release, holds, clash, status_held, status_released, insert_lock,
  new_lock, lock_error, release_lock,
}
use nomici_orchestrator.Worklocks.Exclusive.{IsExclusive, no_other_holder}

-- A request names a run and a resource.
pub record IsNamed (request : AcquireRequest) : Type 0 where
  pub run : is_empty (trim_space request.run_id) ≡ false
  pub resource : is_empty (trim_space request.resource) ≡ false

-- the lock that a request would add to a world
abbrev pub wanted : AcquireRequest → World → Lock
wanted request w = new_lock request (w.env.now w.tick) ("lock" ^+ "_" ^+ w.env.random (suc w.tick))

held-clash :
    (l : Lock) (rs : List Lock)
    → l.status ≡ status_held
    → any (holds l.run_id l.resource) rs ≡ true
    → any (clash l) rs ≡ true
held-clash l [] s h = absurd (ground arith)
held-clash l (x ∷ rs) s h = ground (
  arith,
  held-clash l rs,
  eq_iff l.status status_held,
  eq_iff l.run_id x.run_id,
  eq_iff l.resource x.resource,
  eq_iff x.run_id l.run_id,
  eq_iff x.resource l.resource,
)

-- While a lock is held on a resource of a run, a request for that resource fails, and the database
-- stays as it was: with the error that names the resource, or with a failure of the statement.
pub acquire-held :
    (request : AcquireRequest) (w : World)
    → IsNamed request
    → any (holds request.run_id (trim_space request.resource)) w.db.workspace_locks ≡ true
    → acquire request w
      ≡ err
          (if w.env.fails (suc (suc w.tick)) then driver else locked (trim_space request.resource))
          (next (next (next w)))
unfolding acquire ◌>>=◌ refuse_if map_error insert_lock Table.insert lock_error new_lock
acquire-held request w named h =
    ground
      (arith, named.run, named.resource, held-clash (wanted request w) w.db.workspace_locks refl h)

-- the UPDATE of `release`
abbrev give_back : String → String → Lock → Lock
give_back at lock_id =
    touch (λ l. l.lock_id == lock_id && l.status == status_held)
      (λ l. record l { status = status_released; released_at = at })

abbrev released : String → String → List Lock → List Lock
released at lock_id =
    Table.update (λ l. l.lock_id == lock_id && l.status == status_held)
      (λ l. record l { status = status_released; released_at = at })

module _ (at lock_id run_id resource : String) where
  -- A release makes no holder.
  holder-released :
      (rs : List Lock)
      → any (holds run_id resource) rs ≡ false
      → any (holds run_id resource) (released at lock_id rs) ≡ false
  unfolding Table.update
  holder-released [] h = refl
  holder-released (x ∷ rs) h = ground (arith, holder-released rs)

  given_back_free :
      (x : Lock)
      → x.lock_id == lock_id ≡ true
      → x.status == status_held ≡ true
      → holds run_id resource (give_back at lock_id x) ≡ false
  given_back_free x e h = rw e (rw h refl)

  clash-found :
      (x l : Lock) (rs : List Lock)
      → Table.find (λ r. r.lock_id == lock_id) rs ≡ some l
      → any (clash x) rs ≡ false
      → clash x l ≡ false
  unfolding Table.find
  clash-found x l [] f e = absurd (ground arith)
  clash-found x l (r ∷ rs) f e = ground (arith, clash-found x l rs)

  -- The release of the lock that holds a resource leaves the resource with no holder.
  released-free :
      (l : Lock) (rs : List Lock)
      → NoClash clash rs
      → Table.find (λ r. r.lock_id == lock_id) rs ≡ some l
      → holds run_id resource l ≡ true
      → any (holds run_id resource) (released at lock_id rs) ≡ false
  unfolding Table.find Table.update
  released-free l [] n f h = absurd (ground arith)
  released-free l (x ∷ rs) n f h = elim (Bool-cases (x.lock_id == lock_id)) [
    | inl e ↦
        let same : x ≡ l = ground arith in
        let alone = no_other_holder run_id resource x rs (rw same h) n.0 in
        let held : x.status == status_held ≡ true = ground arith in
        rw (given_back_free x e held) (holder-released rs alone)
    | inr e ↦
        let found : Table.find (λ r. r.lock_id == lock_id) rs ≡ some l = ground arith in
        let apart = clash-found x l rs found n.0 in
        ground (
          arith,
          released-free l rs n.1 found h,
          eq_iff x.run_id run_id,
          eq_iff x.resource resource,
          eq_iff l.run_id run_id,
          eq_iff l.resource resource,
          eq_iff x.run_id l.run_id,
          eq_iff x.resource l.resource,
        )
  ]

-- The identifier is none of the table's.
abbrev pub IsFresh : String → List Lock → Type 0
IsFresh lock_id rs = any (λ r. r.lock_id == lock_id) rs ≡ false

IsFresh-released :
    (new at lock_id : String) (rs : List Lock)
    → IsFresh new rs
    → IsFresh new (released at lock_id rs)
unfolding Table.update
IsFresh-released new at lock_id [] h = refl
IsFresh-released new at lock_id (x ∷ rs) h = ground (arith, IsFresh-released new at lock_id rs)

clash_one :
    (l x : Lock)
    → x.lock_id == l.lock_id ≡ false
    → holds l.run_id l.resource x ≡ false
    → clash l x ≡ false
clash_one l x f h =
    rw (==_comm l.lock_id x.lock_id, ==_comm l.run_id x.run_id, ==_comm l.resource x.resource, f)
      (ground arith)

clash-free :
    (l : Lock) (rs : List Lock)
    → IsFresh l.lock_id rs
    → any (holds l.run_id l.resource) rs ≡ false
    → any (clash l) rs ≡ false
clash-free l [] f h = refl
clash-free l (x ∷ rs) f h =
    rw (clash_one l x (or-false_left _ _ f) (or-false_left _ _ h))
      (clash-free l rs (or-false_right _ _ f) (or-false_right _ _ h))

-- the world after a release that no statement fails in
pub release_done :
    (lock_id : String) (w : World)
    → is_empty (trim_space lock_id) ≡ false
    → w.env.fails (suc w.tick) ≡ false
    → final (release lock_id w)
      ≡ record (next (next w)) { db = release_lock (w.env.now w.tick) lock_id w.db }
unfolding release ◌>>=◌
release_done lock_id w named f = ground arith

acquire_done :
    (request : AcquireRequest) (w : World)
    → IsNamed request
    → w.env.fails (suc (suc w.tick)) ≡ false
    → any (clash (wanted request w)) w.db.workspace_locks ≡ false
    → (w' : World) × (acquire request w ≡ ok (wanted request w) w')
unfolding acquire ◌>>=◌ refuse_if map_error insert_lock Table.insert new_lock
acquire_done request w named f free = (
  record (next (next (next w))) {
    db = record w.db { workspace_locks = w.db.workspace_locks ++ wanted request w ∷ [] };
  },
  ground (arith, named.run, named.resource),
)

-- Once the lock that holds a resource has been released, a request for the resource is granted, with
-- the lock that the request describes: from a table whose unique indexes hold, if no statement fails
-- and the new identifier is none of the table's.
pub acquire_after_release :
    (request : AcquireRequest) (l : Lock) (w : World)
    → IsExclusive w.db
    → IsNamed request
    → ((n : ℕ) → w.env.fails n ≡ false)
    → is_empty (trim_space l.lock_id) ≡ false
    → Table.find (λ r. r.lock_id == l.lock_id) w.db.workspace_locks ≡ some l
    → holds request.run_id (trim_space request.resource) l ≡ true
    → IsFresh ("lock" ^+ "_" ^+ w.env.random (suc (suc (suc w.tick)))) w.db.workspace_locks
    → (w' : World) × (acquire request (final (release l.lock_id w))
        ≡ ok (wanted request (final (release l.lock_id w))) w')
unfolding new_lock release_lock
acquire_after_release request l w ex named steady has_id found holding fresh =
    let after = record (next (next w)) { db = release_lock (w.env.now w.tick) l.lock_id w.db } in
    rw (release_done l.lock_id w has_id (steady (suc w.tick))) (
      acquire_done request after named (steady _) (
        clash-free (wanted request after) _
          (IsFresh-released ("lock" ^+ "_" ^+ w.env.random (suc (suc (suc w.tick))))
            (w.env.now w.tick) l.lock_id w.db.workspace_locks fresh)
          (released-free (w.env.now w.tick) l.lock_id request.run_id (trim_space request.resource) l
            w.db.workspace_locks ex found holding)))
