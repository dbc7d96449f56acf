-- ===== src/Toolbroker/Locking.antt =====
-- internal/toolbroker/broker.go withWorkspaceLock: a tool's work on a resource that it has locked.
use nomici_orchestrator.Common.{
  String, ◌==◌, ◌≡◌, refl, sym, ◌∙◌, ap, inl, inr, Bool, false, ◌&&◌, List, [], ◌∷◌, arith,
  Bool-cases, All, is_empty, trim_space, ◌^+◌, suc, subst, some, map-eq-some,
}
use Prim.Native.String.append
use nomici_orchestrator.Common.Table
use nomici_orchestrator.Store.{
  Db, World, Outcome, ok, err, final, Exec, pure, raise, new_id, ◌>>=◌, ◌>>◌,
}
use nomici_orchestrator.Store.Inversion.{bind-eq-ok, pure-eq-ok}
use nomici_orchestrator.Store.Steps.{bind-ok}
use nomici_orchestrator.Store.Moves.{Preorder, Moves, moves_rules, Moves-exec_insert}
use nomici_orchestrator.Store.Rows.{Event, Lock}
use nomici_orchestrator.Trace.{append as append_event, clash, insert_event, next_sequence}
use nomici_orchestrator.Worklocks.{
  AcquireRequest, acquire, release, release_lock, status_held, status_released, new_lock,
}
use nomici_orchestrator.Worklocks.Handover.{release_done}
use nomici_orchestrator.Toolbroker.Types.{Library, Value, text}
use nomici_orchestrator.Toolbroker.Broker.{ignore, trace}

-- Go's `defer cleanup()`
unfoldable deferred : {A : Type 0} → Exec Unit → Exec A → Exec A
deferred cleanup m w = elim (m w) [
  | ok a w' ↦ (cleanup >> pure a) w'
  | err e w' ↦ (cleanup >> raise e) w'
]

-- what the trace says of a lock
abbrev pub lock_fields : Lock → String → String → List (String × Value)
lock_fields lock task_id tool_call_id =
    ("lock_id", text lock.lock_id)
    ∷ ("resource", text lock.resource)
    ∷ ("task_id", text task_id)
    ∷ ("tool_call_id", text tool_call_id)
    ∷ []

module _ (lib : Library) (run_id task_id tool_call_id : String) where
  abbrev pub lock_request : String → String → AcquireRequest
  lock_request resource metadata = record {
    run_id = run_id;
    task_id = task_id;
    tool_call_id = tool_call_id;
    resource = resource;
    owner = "toolbroker";
    metadata = metadata;
  }

  abbrev pub trace_lock : String → Lock → Exec Unit
  trace_lock event_type lock =
      trace lib run_id event_type "" (lock_fields lock task_id tool_call_id)

  unfoldable give_back : Lock → Exec Unit
  give_back lock = do ignore (release lock.lock_id); trace_lock "workspace.lock.released" lock

  -- withWorkspaceLock: `work` while the resource is locked; the lock is given back whether the work
  -- succeeds or fails. `metadata` is the JSON that names the call.
  unfoldable pub with_workspace_lock : {A : Type 0} → String → String → Exec A → Exec A
  unfolding deferred give_back
  with_workspace_lock resource metadata work = do
    lock ← acquire (lock_request resource metadata)
    trace_lock "workspace.lock.acquired" lock
    deferred (give_back lock) work

abbrev SameLocks : Db → Db → Type 0
SameLocks a b = b.workspace_locks ≡ a.workspace_locks

SameLocks-Preorder : Preorder SameLocks
SameLocks-Preorder = record { same = λ a. refl; trans = λ a b c h k. k ∙ h }

insert_event-SameLocks : (e : Event) (a b : Db) → insert_event e a ≡ some b → SameLocks a b
unfolding insert_event
insert_event-SameLocks e a b h =
    let (rows, inserted, same) = map-eq-some _ (Table.insert clash e a.trace_events) h in
    rw (← same) refl

append-SameLocks : (event : Event) → Moves SameLocks (append_event event)
unfolding append_event next_sequence
append-SameLocks event =
    search (moves_rules, Moves-exec_insert, SameLocks-Preorder, insert_event-SameLocks) depth 12

trace-SameLocks :
    (lib : Library) (run_id event_type agent_id : String) (payload : List (String × Value))
    → Moves SameLocks (trace lib run_id event_type agent_id payload)
unfolding trace ignore
trace-SameLocks lib run_id event_type agent_id payload =
    search (moves_rules, SameLocks-Preorder, append-SameLocks) depth 9

-- No lock with the identifier is held.
abbrev pub IsReleased : String → List Lock → Type 0
IsReleased lock_id = All (λ l. l.lock_id == lock_id && l.status == status_held ≡ false)

release_lock-IsReleased :
    (at lock_id : String) (rs : List Lock)
    → IsReleased lock_id (
        Table.update
          (λ l. l.lock_id == lock_id && l.status == status_held)
          (λ l. record l { status = status_released; released_at = at })
          rs)
unfolding Table.update
release_lock-IsReleased at lock_id [] = tt
release_lock-IsReleased at lock_id (l ∷ rs) = (
  elim (Bool-cases (l.lock_id == lock_id && l.status == status_held)) [
    | inl e ↦ rw e (no (l.lock_id == lock_id))
    | inr e ↦ rw e e
  ],
  release_lock-IsReleased at lock_id rs,
)
  where
    no : (b : Bool) → b && status_released == status_held ≡ false
    no b = ground arith

lock_named : (r : String) → is_empty (trim_space ("lock" ^+ "_" ^+ r)) ≡ false
unfolding trim_space is_empty
lock_named r = rw (append.cons "l" "ock" ("_" ^+ r)) refl

ignore-ok : {A : Type 0} (m : Exec A) (w : World) → ignore m w ≡ ok tt (final (m w))
unfolding ignore ◌>>=◌
ignore-ok {A} m w = go (m w)
  where
    go :
        (x : Outcome A)
        → (elim (elim x as (λ y. Outcome Unit) [ ok a w' ↦ ok tt w' | err e w' ↦ err e w' ])
            as (λ y. Outcome Unit) [ ok b w' ↦ ok b w' | err e w' ↦ ok tt w' ])
          ≡ ok tt (final x)
    go (ok a w') = refl
    go (err e w') = refl

trace-ok :
    (lib : Library) (run_id event_type agent_id : String) (payload : List (String × Value))
    (w : World)
    → trace lib run_id event_type agent_id payload w
      ≡ ok tt (final (trace lib run_id event_type agent_id payload w))
unfolding trace pure
trace-ok lib run_id event_type agent_id payload w = elim (Bool-cases (is_empty run_id)) [
  | inl e ↦ rw e refl
  | inr e ↦ rw e (rw (ignore-ok (append_event _) w) refl)
]

acquire-lock_id :
    (request : AcquireRequest) (w : World) {lock : Lock} {w' : World}
    → acquire request w ≡ ok lock w'
    → (r : String) × (lock.lock_id ≡ "lock" ^+ "_" ^+ r)
unfolding acquire new_id new_lock
acquire-lock_id request w h =
    let (_, w₁, _, h₁) = bind-eq-ok _ _ w h in
    let (_, w₂, _, h₂) = bind-eq-ok _ _ w₁ h₁ in
    let (_, w₃, _, h₃) = bind-eq-ok _ _ w₂ h₂ in
    let (id, w₄, drawn, h₄) = bind-eq-ok _ _ w₃ h₃ in
    let (_, w₅, _, h₅) = bind-eq-ok _ _ w₄ h₄ in
    let (same, _) = pure-eq-ok _ w₅ h₅ in
    (w₃.env.random w₃.tick, ap (λ (l : Lock). l.lock_id) same ∙ drawn_is w₃ drawn)
  where
    drawn_is :
        (v : World) {id : String} {v' : World}
        → new_id "lock" v ≡ ok id v'
        → id ≡ "lock" ^+ "_" ^+ v.env.random v.tick
    drawn_is v h = ground arith

module _ (lib : Library) (run_id task_id tool_call_id : String) where
  abbrev returned : Lock → World → World
  returned lock v = final (
      trace_lock lib run_id task_id tool_call_id "workspace.lock.released" lock
        (final (release lock.lock_id v)))

  give_back-ok :
      (lock : Lock) (v : World)
      → give_back lib run_id task_id tool_call_id lock v ≡ ok tt (returned lock v)
  unfolding give_back
  give_back-ok lock v =
      bind-ok _ _ v (ignore-ok (release lock.lock_id) v) ∙ trace-ok lib run_id _ "" _ _

  returned-IsReleased :
      (lock : Lock) (v : World)
      → is_empty (trim_space lock.lock_id) ≡ false
      → v.env.fails (suc v.tick) ≡ false
      → IsReleased lock.lock_id (returned lock v).db.workspace_locks
  unfolding release_lock
  returned-IsReleased lock v named goes =
      rw
        ((trace-SameLocks lib run_id "workspace.lock.released" ""
            (lock_fields lock task_id tool_call_id)).at
          (final (release lock.lock_id v)))
        (rw (release_done lock.lock_id v named goes)
          (release_lock-IsReleased (v.env.now v.tick) lock.lock_id v.db.workspace_locks))

  deferred-final :
      {A : Type 0} (lock : Lock) (work : Exec A) (w : World)
      → final (deferred (give_back lib run_id task_id tool_call_id lock) work w)
        ≡ returned lock (final (work w))
  unfolding deferred pure raise
  deferred-final {A} lock work w = go (work w)
    where
      go :
          (x : Outcome A)
          → final (elim x as (λ y. Outcome A) [
            | ok a w' ↦ (give_back lib run_id task_id tool_call_id lock >> pure a) w'
            | err e w' ↦ (give_back lib run_id task_id tool_call_id lock >> raise e) w'
          ])
            ≡ returned lock (final x)
      go (ok a w') = ap final (bind-ok _ _ w' (give_back-ok lock w'))
      go (err e w') = ap final (bind-ok _ _ w' (give_back-ok lock w'))

  -- the world in which the work begins, where `w` is the one in which the lock was had
  abbrev pub locked_world : Lock → World → World
  locked_world lock w =
      final (trace_lock lib run_id task_id tool_call_id "workspace.lock.acquired" lock w)

  -- Once withWorkspaceLock has its lock, no lock with that identifier is held when it is over, whatever
  -- the work does to the database and whether it succeeds or fails, if the UPDATE that gives the lock
  -- back does not fail.
  pub with_workspace_lock-IsReleased :
      {A : Type 0} (resource metadata : String) (work : Exec A) (w : World) {lock : Lock}
      {w' : World}
      → acquire (lock_request lib run_id task_id tool_call_id resource metadata) w ≡ ok lock w'
      → (final (work (locked_world lock w'))).env.fails
          (suc (final (work (locked_world lock w'))).tick)
        ≡ false
      → IsReleased lock.lock_id
          (final (
            with_workspace_lock lib run_id task_id tool_call_id resource metadata work
              w)).db.workspace_locks
  unfolding with_workspace_lock
  with_workspace_lock-IsReleased resource metadata work w {lock} {w'} got goes =
      let (r, id) = acquire-lock_id _ w got in
      let began = bind-ok _ _ w got ∙ bind-ok _ _ w' (trace-ok lib run_id _ "" _ w') in
      subst (λ v. IsReleased lock.lock_id v.db.workspace_locks)
        (sym (ap final began ∙ deferred-final lock work (locked_world lock w')))
        (returned-IsReleased lock _ (rw id (lock_named r)) goes)
