-- ===== src/Trace/Listing.antt =====
-- internal/trace/store.go: what a client that has read part of a run's events is given.
use nomici_orchestrator.Common.{
  ℕ, zero, suc, ◌+◌, ◌≤◌, ◌⊎◌, subst, String, ◌≡◌, refl, inl, inr, Bool, true, false, ◌&&◌, List,
  [], ◌∷◌, arith, Bool-cases, ap, ◌∙◌, ltb, drop,
}
use nomici_orchestrator.Common.Table
use nomici_orchestrator.Store.{World, ok, next, query}
use nomici_orchestrator.Store.Rows.{Event}
use nomici_orchestrator.Trace.{in_run, list_by_run_after}
use nomici_orchestrator.Trace.Numbered.{IsNumbered, IsSequenced, events_of}

abbrev earlier : Event → Event → Bool
earlier a b = ltb a.sequence b.sequence

-- Numbered events are in order.
order_by-IsNumbered : (k : ℕ) (es : List Event) → IsNumbered k es → Table.order_by earlier es ≡ es
unfolding Table.order_by Table.place
order_by-IsNumbered k [] h = refl
order_by-IsNumbered k (e ∷ []) h = refl
order_by-IsNumbered k (e ∷ f ∷ es) h =
    let rest = order_by-IsNumbered (suc k) (f ∷ es) h.1 in
    let ahead : earlier f e ≡ false = ground (arith, h.0, h.1.0) in
    ap (Table.place earlier e) rest ∙ rw ahead refl

select-all :
    (k m : ℕ) (es : List Event)
    → k ≤ m
    → IsNumbered m es
    → Table.select (λ e. ltb k e.sequence) es ≡ es
unfolding Table.select
select-all k m [] le h = refl
select-all k m (e ∷ es) le h =
    let later : ltb k e.sequence ≡ true = ground (arith, h.0) in
    rw later (ap (λ rs. e ∷ rs) (select-all k (suc m) es (omega arith) h.1))

select-drop :
    (i k : ℕ) (es : List Event)
    → IsNumbered i es
    → Table.select (λ e. ltb (i + k) e.sequence) es ≡ drop k es
unfolding Table.select
select-drop i zero es h = select-all (i + 0) i es (omega arith) h
select-drop i (suc k) [] h = refl
select-drop i (suc k) (e ∷ es) h =
    let early : ltb (i + suc k) e.sequence ≡ false = ground (arith, h.0) in
    rw early (
      ap (λ n. Table.select (λ (x : Event). ltb n x.sequence) es) (omega arith)
      ∙ select-drop (suc i) k es h.1)

select-select :
    (p q : Event → Bool) (es : List Event)
    → Table.select (λ e. p e && q e) es ≡ Table.select q (Table.select p es)
unfolding Table.select
select-select p q [] = refl
select-select p q (e ∷ es) = elim (Bool-cases (p e)) [
  | inl t ↦ rw t (elim (Bool-cases (q e)) [
    | inl u ↦ rw u (ap (λ rs. e ∷ rs) (select-select p q es))
    | inr u ↦ rw u (select-select p q es)
  ])
  | inr t ↦ rw t (select-select p q es)
]

IsNumbered-drop :
    (i k : ℕ) (es : List Event)
    → IsNumbered i es
    → IsNumbered (i + k) (drop k es) ⊎ (drop k es ≡ [])
IsNumbered-drop i zero es h = inl (subst (λ n. IsNumbered n es) (omega arith) h)
IsNumbered-drop i (suc k) [] h = inr refl
IsNumbered-drop i (suc k) (e ∷ es) h = elim (IsNumbered-drop (suc i) k es h.1) [
  | inl n ↦ inl (subst (λ n. IsNumbered n (drop k es)) (omega arith) n)
  | inr n ↦ inr n
]

in_order :
    (i k : ℕ) (es : List Event) → IsNumbered i es → Table.order_by earlier (drop k es) ≡ drop k es
unfolding Table.order_by
in_order i k es h = elim (IsNumbered-drop i k es h) [
  | inl n ↦ order_by-IsNumbered (i + k) (drop k es) n
  | inr n ↦ rw n refl
]

-- Where the events of each run are numbered from 1 on, a client that asks for the events of a run
-- after the k-th one is given all events of the run but the first k, in their order, if the query does
-- not fail: none is lost and none comes twice, wherever the reading was broken off.
pub list_by_run_after-drop :
    (run_id : String) (k : ℕ) (w : World)
    → IsSequenced w.db
    → w.env.fails w.tick ≡ false
    → list_by_run_after run_id k w ≡ ok (drop k (events_of run_id w.db)) (next w)
unfolding list_by_run_after query
list_by_run_after-drop run_id k w h goes =
    let es = events_of run_id w.db in
    rw goes (
      ap (λ rs. ok (Table.order_by earlier rs) (next w))
        (select-select (in_run run_id) (λ e. ltb k e.sequence) w.db.trace_events
          ∙ ap (λ n. Table.select (λ (e : Event). ltb n e.sequence) es) (omega arith)
          ∙ select-drop 0 k es (h run_id))
      ∙ ap (λ rs. ok rs (next w)) (in_order 0 k es (h run_id)))
