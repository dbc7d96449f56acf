-- ===== src/Gateway/Avoids.antt =====
-- internal/gateway/run_handler.go executeTaskWithToolLoop: that a call which blocks the session ends with
-- an error.
use nomici_orchestrator.Common.{ℕ, String, ◌≡◌, refl, sym, subst, List, [], ◌∷◌, ◌++◌, arith}
use nomici_orchestrator.Store.{World, Error, Outcome, ok, err, Exec, pure, ◌>>=◌}
use nomici_orchestrator.Store.Inversion.{bind-eq-ok, pure-eq-ok}
use nomici_orchestrator.Store.Rows.{Session, Task, CallRecord}
use nomici_orchestrator.SharedContext.Redaction.{Pattern}
use nomici_orchestrator.Gateway.Ledger.{Object, Codec}
use nomici_orchestrator.Gateway.Lifecycle.{block_for_tool_approval, block_for_tool_loop_guardrail}
use nomici_orchestrator.Gateway.Roles.{Ran, finished, failed}
use nomici_orchestrator.Gateway.Calls.{ModelCall, Result, Answer, Models}
use nomici_orchestrator.Gateway.ToolCalls.{
  Counts, Called, stops, seen, Turn, stopped, observed, returned, is_critical, is_waiting,
  block_for_tool_risk_review, await_approval, after_failure, after_call, execute_call,
  execute_calls,
}
use nomici_orchestrator.Gateway.ToolLoop.{exhaust_loop, take_turn}
use nomici_orchestrator.Gateway.Leaves.{
  Leaves, Leaves-option, Leaves-bind, Leaves-if, Leaves-pure, leaves_rules,
}

abbrev pub Done : Ran → Type 0
Done (finished t p o) = Unit
Done (failed t e) = ⊥

abbrev pub DoneCalled : Called → Type 0
DoneCalled (stops r) = Done r
DoneCalled (seen o c) = ⊥

abbrev pub DoneTurn : Turn → Type 0
DoneTurn (stopped r) = Done r
DoneTurn (observed os c) = ⊥

-- `m` returns nothing that is in `P`.
abbrev pub Avoids : {A : Type 0} → (A → Type 0) → Exec A → Type 0
Avoids P m = Leaves (λ db. ⊥) P m

abbrev pub Never : {A : Type 0} → Exec A → Type 0
Never m = Avoids (λ a. Unit) m

returned-Avoids :
    (done : Ran) (task : Task) (m : Exec Unit) → Never m → Avoids Done (returned done task m)
unfolding returned
returned-Avoids done task m n = record { after = λ w h p. go w (m w) refl h p }
  where
    go :
        (w : World) (x : Outcome Unit)
        → m w ≡ x
        → {a : Ran} {w' : World}
        → (elim x as (λ y. Outcome Ran) [ ok u w' ↦ ok done w' | err e w' ↦ ok (failed task e) w' ])
          ≡ ok a w'
        → Done a
        → ⊥
    go w (ok u v) e h p = n.after w e tt
    go w (err e v) e' {a} h p =
        let same : failed task e ≡ a = ground arith in subst Done (sym same) p

stops-Avoids : (m : Exec Ran) → Avoids Done m → Avoids DoneCalled (m >>= λ ran. pure (stops ran))
stops-Avoids m k = record {
  after = λ w {a} h p.
      let (ran, v, returns, h₁) = bind-eq-ok m (λ ran. pure (stops ran)) w h in
      k.after w returns (subst DoneCalled (pure-eq-ok (stops ran) v h₁).0 p);
}

seen-Avoids : (o : String) (c : Counts) → ¬ (DoneCalled (seen o c))
seen-Avoids o c p = p

module _ (codec : Codec) where
  approval-Never :
      (session : Session) (task : Task) (r : CallRecord)
      → Never (block_for_tool_approval codec session task r)
  unfolding block_for_tool_approval
  approval-Never session task r = search leaves_rules depth 12

  guardrail-Never :
      (session : Session) (task : Task) (reason body : String) (metadata : Object)
      → Never (block_for_tool_loop_guardrail codec session task reason body metadata)
  unfolding block_for_tool_loop_guardrail
  guardrail-Never session task reason body metadata = search leaves_rules depth 12

  module _ (patterns : List Pattern) (models : Models) (session : Session) (task : Task) where
    risk_review-Never :
        (r : CallRecord) (e : Error)
        → Never (block_for_tool_risk_review codec patterns models session task r e)
    unfolding block_for_tool_risk_review
    risk_review-Never r e = search leaves_rules depth 12

    await_approval-Avoids :
        (result : Result) (round : ℕ) (prompt : String) (observations turn : List String)
        (call : ModelCall) (tool_id : String) (r : CallRecord)
        → Avoids DoneCalled (
            await_approval codec patterns models session task result round prompt observations turn
              call tool_id r)
    unfolding await_approval
    await_approval-Avoids result round prompt observations turn call tool_id r =
        search (leaves_rules, stops-Avoids, returned-Avoids, approval-Never) depth 12

    after_failure-Avoids :
        (result : Result) (all : List String) (call : ModelCall) (tool_id : String) (a : Answer)
        (e : Error) (observation : String) (counts : Counts)
        → Avoids DoneCalled (
            after_failure codec patterns models session task result all call tool_id a e observation
              counts)
    unfolding after_failure
    after_failure-Avoids result all call tool_id a e observation counts =
        Leaves-option (is_critical a.call_record) _ _
          (search (leaves_rules, stops-Avoids, returned-Avoids, guardrail-Never, seen-Avoids) depth
            12)
          (λ r. search (stops-Avoids, returned-Avoids, risk_review-Never) depth 12)

    after_call-Avoids :
        (result : Result) (observations turn : List String) (call : ModelCall) (tool_id : String)
        (a : Answer) (counts : Counts)
        → Avoids DoneCalled (
            after_call codec patterns models session task result observations turn call tool_id a
              counts)
    unfolding after_call
    after_call-Avoids result observations turn call tool_id a counts = Leaves-bind _ _ (λ u.
        Leaves-option a.failure _ _ (Leaves-pure _ (λ p. p))
          (λ e. after_failure-Avoids result _ call tool_id a e _ counts))

    execute_call-Avoids :
        (result : Result) (round : ℕ) (prompt : String) (observations turn : List String)
        (call : ModelCall) (counts : Counts)
        → Avoids DoneCalled (
            execute_call codec patterns models session task result round prompt observations turn
              call counts)
    unfolding execute_call
    execute_call-Avoids result round prompt observations turn call counts =
        Leaves-if _ _ _ (Leaves-pure _ (λ p. p)) (
          Leaves-bind _ _ (λ a.
            Leaves-option (is_waiting a.call_record) _ _
              (after_call-Avoids result observations turn call _ a counts)
              (λ r. await_approval-Avoids result round prompt observations turn call _ r)))

    go_on-Avoids :
        (called : Called) (k : String → Counts → Exec Turn)
        → ((o : String) (c : Counts) → Avoids DoneTurn (k o c))
        → ¬ (DoneCalled called)
        → Avoids DoneTurn (elim called [ stops ran ↦ pure (stopped ran) | seen o more ↦ k o more ])
    go_on-Avoids (stops ran) k h n = Leaves-pure (stopped ran) n
    go_on-Avoids (seen o c) k h n = h o c

    execute_calls-Avoids :
        (result : Result) (round : ℕ) (prompt : String) (observations turn : List String)
        (counts : Counts) (calls : List ModelCall)
        → Avoids DoneTurn (
            execute_calls codec patterns models session task result round prompt observations turn
              counts calls)
    unfolding execute_calls
    execute_calls-Avoids result round prompt observations turn counts [] =
        Leaves-pure (observed turn counts) (λ p. p)
    execute_calls-Avoids result round prompt observations turn counts (call ∷ calls) = record {
      after = λ w h p.
          let (called, v, executed, h₁) = bind-eq-ok _ _ w h in
          (go_on-Avoids called _
              (λ o c.
                execute_calls-Avoids result round prompt observations (turn ++ o ∷ []) c calls)
              (λ d.
                (execute_call-Avoids result round prompt observations turn call counts).after w
                  executed d)).after
            v h₁ p;
    }

    pub take_turn-Avoids :
        (round : ℕ) (prompt : String) (observations : List String) (counts : Counts)
        (result : Result) (calls : List ModelCall)
        → Avoids DoneTurn (
            take_turn codec patterns models session task round prompt observations counts result
              calls)
    unfolding take_turn
    take_turn-Avoids round prompt observations counts result calls =
        Leaves-bind _ _ (λ u. execute_calls-Avoids result round prompt observations [] counts _)

    pub exhaust_loop-Avoids :
        (observations : List String) (result : Result)
        → Avoids Done (exhaust_loop codec patterns models session task observations result)
    unfolding exhaust_loop
    exhaust_loop-Avoids observations result =
        search (leaves_rules, returned-Avoids, guardrail-Never) depth 8
