-- ===== src/Gateway/Final.antt =====
-- internal/gateway/run_handler.go executeTaskWithToolLoop: what a role ends with.
use nomici_orchestrator.Common.{
  ℕ, zero, suc, String, ◌≡◌, refl, sym, ◌∙◌, ap, subst, some, List, [], ◌∷◌, arith,
}
use nomici_orchestrator.Common.Table
use nomici_orchestrator.Store.{Db, World, Outcome, ok, err, Exec, pure, final}
use nomici_orchestrator.Store.Inversion.{bind-eq-ok, pure-eq-ok}
use nomici_orchestrator.Store.Rows.{Session, Task}
use nomici_orchestrator.SharedContext.Redaction.{Pattern}
use nomici_orchestrator.Runs.Types.{status_running}
use nomici_orchestrator.Runs.Sessions.{has_session}
use nomici_orchestrator.Gateway.Ledger.{Codec, stop_if_session_runnable}
use nomici_orchestrator.Gateway.Roles.{Ran, finished, failed}
use nomici_orchestrator.Gateway.Calls.{
  ModelCall, Result, Models, max_model_tool_rounds, result_preview, model_tool_calls_from_result,
}
use nomici_orchestrator.Gateway.ToolCalls.{Counts, Turn, stopped, observed, guarded}
use nomici_orchestrator.Gateway.ToolLoop.{finish_loop, tool_rounds, execute_task_with_tool_loop}
use nomici_orchestrator.Gateway.Avoids.{Done, DoneTurn, take_turn-Avoids, exhaust_loop-Avoids}
use nomici_orchestrator.Gateway.Paused.{runnable-found}
use nomici_orchestrator.Gateway.Refused.{stop-Same}

module _ (models : Models) (session : Session) (task : Task) where
  -- What a role ends with: the preview of a result for which the model was asked when the session was
  -- running, and which asks for no tool.
  pub record IsFinal (agent_id : String) (t : Task) (preview : String) : Type 0 where
    pub prompt : String
    pub before : World
    pub after : World
    pub result : Result
    pub stored : Session
    pub there : Table.find (has_session session.session_id) before.db.run_sessions ≡ some stored
    pub running : stored.status ≡ status_running
    pub invoked : models.invoke agent_id prompt task.task_id before ≡ ok result after
    pub no_calls : model_tool_calls_from_result models result ≡ []
    pub shown : preview ≡ result_preview result
    pub same_task : t ≡ task

module _ (codec : Codec) (patterns : List Pattern) (models : Models) (session : Session)
    (task : Task) where
  guarded-eq-finished :
      {A : Type 0} (m : Exec A) (k : A → Exec Ran) (w : World) {t : Task} {p : String}
      {os : List String} {w' : World}
      → guarded task m k w ≡ ok (finished t p os) w'
      → (a : A) × (v : World) × (m w ≡ ok a v) × (k a v ≡ ok (finished t p os) w')
  unfolding guarded
  guarded-eq-finished {A = A} m k w {t} {p} {os} {w'} h = go (m w) refl h
    where
      go :
          (x : Outcome A)
          → m w ≡ x
          → (elim x as (λ y. Outcome Ran) [ ok a v ↦ k a v | err e v ↦ ok (failed task e) v ])
            ≡ ok (finished t p os) w'
          → (a : A) × (v : World) × (m w ≡ ok a v) × (k a v ≡ ok (finished t p os) w')
      go (ok a v) e h' = (a, v, e, h')
      go (err e v) _ h' = absurd (ground arith)

  finish_loop-eq-finished :
      (round : ℕ) (observations : List String) (result : Result) (w : World) {t : Task} {p : String}
      {os : List String} {w' : World}
      → finish_loop codec patterns models session task round observations result w
        ≡ ok (finished t p os) w'
      → (p ≡ result_preview result) × (t ≡ task)
  unfolding finish_loop
  finish_loop-eq-finished round observations result w h =
      let (u, v, traced, h₁) = bind-eq-ok _ _ w h in
      parts (pure-eq-ok (finished task (result_preview result) observations) v h₁).0
    where
      parts :
          {t t' : Task} {p p' : String} {os os' : List String}
          → finished t p os ≡ finished t' p' os'
          → (p ≡ p') × (t ≡ t')
      parts e = ground arith

  module _ (agent_id : String) where
    ends_with :
        (prompt : String) (v v₁ : World) (result : Result) {t : Task} {p : String}
        → (u : Unit) × (stop_if_session_runnable session.session_id v ≡ ok u v₁)
        → {v₂ : World} → models.invoke agent_id prompt task.task_id v₁ ≡ ok result v₂
        → model_tool_calls_from_result models result ≡ []
        → (p ≡ result_preview result) × (t ≡ task)
        → IsFinal models session task agent_id t p
    ends_with prompt v v₁ result (u, stop) {v₂} invoked none_left (shown, same) =
        let (stored, there, running) = runnable-found session.session_id v stop in
        let kept : v₁.db ≡ v.db =
          sym (ap (λ (x : Outcome Unit). (final x).db) stop)
          ∙ (stop-Same session.session_id).at v in
        record {
          prompt = prompt;
          before = v₁;
          after = v₂;
          result = result;
          stored = stored;
          there =
              ap (λ (d : Db). Table.find (has_session session.session_id) d.run_sessions) kept
              ∙ there;
          running = running;
          invoked = invoked;
          no_calls = none_left;
          shown = shown;
          same_task = same;
        }

    -- a turn whose tools are `k`
    turn-IsFinal :
        (round : ℕ) (prompt : String) (observations : List String)
        (k : Result → ModelCall → List ModelCall → Exec Ran) (w : World) {t : Task} {p : String}
        {os : List String} {w' : World}
        → ((result : Result) (c : ModelCall) (cs : List ModelCall) (v : World)
            → k result c cs v ≡ ok (finished t p os) w'
            → IsFinal models session task agent_id t p)
        → guarded task
            (stop_if_session_runnable session.session_id)
            (λ _. guarded task (models.invoke agent_id prompt task.task_id) (λ result.
              elim (model_tool_calls_from_result models result) [
                | [] ↦ finish_loop codec patterns models session task round observations result
                | c ∷ cs ↦ k result c cs
              ]))
            w
          ≡ ok (finished t p os) w'
        → IsFinal models session task agent_id t p
    turn-IsFinal round prompt observations k w {t} {p} {os} {w'} rest h =
        let (u, v₁, stop, h₁) = guarded-eq-finished _ _ w h in
        let (result, v₂, invoked, h₂) = guarded-eq-finished _ _ v₁ h₁ in
        by_calls u v₁ stop result v₂ invoked (model_tool_calls_from_result models result) refl h₂
      where
        by_calls :
            (u : Unit) (v₁ : World)
            → stop_if_session_runnable session.session_id w ≡ ok u v₁
            → (result : Result) (v₂ : World)
            → models.invoke agent_id prompt task.task_id v₁ ≡ ok result v₂
            → (calls : List ModelCall) → model_tool_calls_from_result models result ≡ calls
            → (elim calls as (λ c. Exec Ran) [
              | [] ↦ finish_loop codec patterns models session task round observations result
              | c ∷ cs ↦ k result c cs
            ])
                v₂
              ≡ ok (finished t p os) w'
            → IsFinal models session task agent_id t p
        by_calls u v₁ stop result v₂ invoked [] e h₂ =
            ends_with prompt w v₁ result (u, stop) invoked e
              (finish_loop-eq-finished round observations result v₂ h₂)
        by_calls u v₁ stop result v₂ invoked (c ∷ cs) e h₂ = rest result c cs v₂ h₂

    after_turn-IsFinal :
        (turn : Turn) (k : List String → Counts → Exec Ran) (v : World) {t : Task} {p : String}
        {os : List String} {w' : World}
        → ¬ (DoneTurn turn)
        → ((said : List String) (c : Counts)
            → k said c v ≡ ok (finished t p os) w'
            → IsFinal models session task agent_id t p)
        → (elim turn as (λ x. Exec Ran) [
          | stopped ran ↦ pure ran
          | observed said more ↦ k said more
        ])
            v
          ≡ ok (finished t p os) w'
        → IsFinal models session task agent_id t p
    after_turn-IsFinal (stopped ran) k v n rest h =
        absurd (n (subst Done (pure-eq-ok ran v h).0 tt))
    after_turn-IsFinal (observed said more) k v n rest h = rest said more h

    tool_rounds-IsFinal :
        (left : ℕ) (prompt : String) (observations : List String) (counts : Counts) (w : World)
        {t : Task} {p : String} {os : List String} {w' : World}
        → tool_rounds codec patterns models session task agent_id left prompt observations counts w
          ≡ ok (finished t p os) w'
        → IsFinal models session task agent_id t p
    unfolding tool_rounds
    tool_rounds-IsFinal zero prompt observations counts w h =
        turn-IsFinal max_model_tool_rounds prompt observations _ w
          (λ result c cs v h'. absurd (
            (exhaust_loop-Avoids codec patterns models session task observations result).after v h'
              tt))
          h
    tool_rounds-IsFinal (suc left) prompt observations counts w h =
        turn-IsFinal _ prompt observations _ w
          (λ result c cs v h'.
            let (turn, v₁, taken, h₁) = bind-eq-ok _ _ v h' in
            after_turn-IsFinal turn _ v₁
              (λ d.
                (take_turn-Avoids codec patterns models session task _ prompt observations counts
                    result (c ∷ cs)).after
                  v taken d)
              (λ said more k. tool_rounds-IsFinal left _ _ more v₁ k) h₁)
          h

-- Where executeTaskWithToolLoop returns a result, it is the task as it was and the preview of a result
-- for which the model was asked when the session was stored as running, and which asks for no tool.
pub execute_task_with_tool_loop-IsFinal :
    (codec : Codec) (patterns : List Pattern) (models : Models) (session : Session) (task : Task)
    (agent_id prompt : String) (w : World) {t : Task} {p : String} {os : List String} {w' : World}
    → execute_task_with_tool_loop codec patterns models session task agent_id prompt w
      ≡ ok (finished t p os) w'
    → IsFinal models session task agent_id t p
unfolding execute_task_with_tool_loop
execute_task_with_tool_loop-IsFinal codec patterns models session task agent_id prompt w h =
    tool_rounds-IsFinal codec patterns models session task agent_id max_model_tool_rounds prompt []
      [] w h
