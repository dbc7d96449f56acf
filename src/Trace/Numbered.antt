-- ===== src/Trace/Numbered.antt =====
-- internal/trace/store.go: the numbers of a run's events.
use nomici_orchestrator.Common.{
  ℕ, suc, ◌+◌, String, eq_iff, ◌≡◌, refl, inl, inr, Bool, true, false, some, List, [], ◌∷◌, ◌++◌,
  arith, is_empty, Bool-cases, if◌then◌else◌, sym, ap, ◌∙◌, length, All, ltb, map-eq-some,
}
use nomici_orchestrator.Common.Table
use nomici_orchestrator.Common.Table.Laws.{insert-eq-some}
use nomici_orchestrator.Store.{Db, World, ok, final, pure, now, new_id}
use nomici_orchestrator.Store.Moves.{Preorder, Moves, Carries, Carries-Preorder, moves_rules}
use nomici_orchestrator.Store.Leads.{
  Leads, Moves-Leads, bind-Leads, exec_insert-Leads, refuse_if-Leads, query-Leads,
}
use nomici_orchestrator.Store.Rows.{Event}
use nomici_orchestrator.Trace.{
  append, completed, in_run, insert_event, max_sequence, next_sequence, clash,
}

-- The events have the numbers that follow `k`, in order and without a gap.
abbrev pub IsNumbered : ℕ → List Event → Type 0
IsNumbered k [] = Unit
IsNumbered k (e ∷ es) = (e.sequence ≡ suc k) × IsNumbered (suc k) es

abbrev pub events_of : String → Db → List Event
events_of run_id db = Table.select (in_run run_id) db.trace_events

-- In every run, the events are numbered from 1 on.
abbrev pub IsSequenced : Db → Type 0
IsSequenced db = (run_id : String) → IsNumbered 0 (events_of run_id db)

max_or : ℕ → List Event → ℕ
max_or k es = if ltb (max_sequence es) k then k else max_sequence es

max_or-IsNumbered : (k : ℕ) (es : List Event) → IsNumbered k es → max_or k es ≡ k + length es
unfolding max_or max_sequence
max_or-IsNumbered k [] h = ground arith
max_or-IsNumbered k (e ∷ es) h =
    let later : max_or (suc k) es ≡ suc k + length es = max_or-IsNumbered (suc k) es h.1 in
    ground (arith, h.0)

max_sequence-IsNumbered : (es : List Event) → IsNumbered 0 es → max_sequence es ≡ length es
unfolding max_or
max_sequence-IsNumbered es h = let all = max_or-IsNumbered 0 es h in ground arith

IsNumbered-append :
    (k : ℕ) (es : List Event) (e : Event)
    → IsNumbered k es
    → e.sequence ≡ suc (k + length es)
    → IsNumbered k (es ++ e ∷ [])
IsNumbered-append k [] e h s = (ground arith, tt)
IsNumbered-append k (x ∷ es) e h s = (h.0, IsNumbered-append (suc k) es e h.1 (ground arith))

select-append :
    (p : Event → Bool) (xs : List Event) (e : Event)
    → Table.select p (xs ++ e ∷ [])
      ≡ (if p e then Table.select p xs ++ e ∷ [] else Table.select p xs)
unfolding Table.select
select-append p [] e = refl
select-append p (x ∷ xs) e = elim (Bool-cases (p x)) [
  | inl t ↦ elim (Bool-cases (p e)) [
    | inl u ↦ rw (t, u) (rw (select-append p xs e, u) refl)
    | inr u ↦ rw (t, u) (rw (select-append p xs e, u) refl)
  ]
  | inr t ↦ rw t (select-append p xs e)
]

-- An event with the number after those of its run may be added.
IsSequenced-insert :
    (event : Event) (a b : Db)
    → event.sequence ≡ suc (max_sequence (events_of event.run_id a))
    → insert_event event a ≡ some b
    → IsSequenced a
    → IsSequenced b
unfolding insert_event
IsSequenced-insert event a b fits e h run_id =
    let (rows, inserted, same) = map-eq-some _ (Table.insert clash event a.trace_events) e in
    let rows_are = (insert-eq-some clash event a.trace_events inserted).1 in
    rw (← same, rows_are, select-append (in_run run_id) a.trace_events event)
      (elim (Bool-cases (in_run run_id event)) [
        | inl t ↦
            let run : event.run_id ≡ run_id = (eq_iff event.run_id run_id).0 t in
            rw t (
              IsNumbered-append 0 (events_of run_id a) event (h run_id) (
                fits
                ∙ ap (λ r. suc (max_sequence (events_of r a))) run
                ∙ ap suc (max_sequence-IsNumbered (events_of run_id a) (h run_id))
                ∙ omega arith))
        | inr f ↦ rw f (h run_id)
      ])

-- Neither the clock nor an identifier changes the database.
stamped :
    (b : Bool) (time : String) (w : World) {x : String} {w' : World}
    → (if b then now else pure time) w ≡ ok x w'
    → w'.db ≡ w.db
unfolding now pure
stamped true time w h = ground arith
stamped false time w h = ground arith

append-IsSequenced :
    (event : Event)
    → event.sequence ≡ 0
    → (w : World) → Leads (Carries IsSequenced) (append event) w
unfolding append next_sequence completed
append-IsSequenced event zero w = refuse_if-Leads order _ _ _ w λ _.
    refuse_if-Leads order _ _ _ w λ _. bind-Leads order _ _ w (Moves-Leads ids w) λ event_id w₁ _.
      rw zero (
        query-Leads order _ _ w₁ λ w₂ same.
          bind-Leads order _ _ w₂ (Moves-Leads times w₂) λ time w₃ told.
            exec_insert-Leads order _ w₃ λ b inserted.
              IsSequenced-insert _ w₃.db b
                (ap (λ (d : Db). suc (max_sequence (events_of event.run_id d)))
                  (sym (stamped _ _ w₂ told ∙ same)))
                inserted)
  where
    order : Preorder (Carries IsSequenced)
    order = Carries-Preorder IsSequenced

    ids :
        Moves
          (Carries IsSequenced)
          (if is_empty event.event_id then new_id "evt" else pure event.event_id)
    ids = search (moves_rules, Carries-Preorder) depth 6

    times : Moves (Carries IsSequenced) (if is_empty event.time then now else pure event.time)
    times = search (moves_rules, Carries-Preorder) depth 6

-- the world after a list of events is appended, whatever each append returns
pub append_all : List Event → World → World
append_all [] w = w
append_all (e ∷ es) w = append_all es (final (append e w))

-- Where events come without a number, as the program appends them, the events of each run are numbered
-- from 1 on, without a gap and in the order in which they were appended, whatever fails, if they were
-- at the start.
pub append_all-IsSequenced :
    (events : List Event) (w : World)
    → All (λ e. e.sequence ≡ 0) events
    → IsSequenced w.db
    → IsSequenced (append_all events w).db
unfolding append_all
append_all-IsSequenced [] w zero h = h
append_all-IsSequenced (e ∷ es) w zero h =
    append_all-IsSequenced es (final (append e w)) zero.1 ((append-IsSequenced e zero.0 w).to h)
