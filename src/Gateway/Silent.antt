-- ===== src/Gateway/Silent.antt =====
-- internal/gateway/semantic_router.go: asking the model writes nothing.
use nomici_orchestrator.Common.{
  String, ◌≡◌, refl, ◌∙◌, Option, none, some, Bool-cases, inl, inr, is_empty, not, ◌&&◌,
  if◌then◌else◌,
}
use nomici_orchestrator.Graph.Types as Graph
use nomici_orchestrator.Store.{Db, World, Outcome, Error, ok, err, final, Exec, ◌>>=◌}
use nomici_orchestrator.Store.Moves.{
  Moves, Preorder, Moves-pure, Moves-raise, Moves-query, Moves-row, Moves-if, Moves-refuse_if,
  Moves-bind,
}
use nomici_orchestrator.Providers.Profiles as Profiles
use nomici_orchestrator.Orchestration.Types.{RouteDecision}
use nomici_orchestrator.Gateway.Semantic.{Services}
use nomici_orchestrator.Gateway.Intent.{optional_row, is_no_rows, found, profile_of, semantic_route}

-- the database stays what it is
abbrev pub Same : Db → Db → Type 0
Same a b = b ≡ a

pub Same-Preorder : Preorder Same
Same-Preorder = record { same = λ a. refl; trans = λ a b c f g. g ∙ f }

found-Moves : {A : Type 0} (o : Option A) (e : Error) → Moves Same (found o e)
unfolding found
found-Moves none e = Moves-raise Same-Preorder e
found-Moves (some a) e = Moves-pure Same-Preorder a

optional_row-Moves : {A : Type 0} (m : Exec A) → Moves Same m → Moves Same (optional_row m)
unfolding optional_row
optional_row-Moves {A} m h = record { at = λ w. go w (m w) (h.at w) }
  where
    go :
        (w : World) (x : Outcome A)
        → Same w.db (final x).db
        → Same w.db
            (final (elim x as (λ y. Outcome (Option A)) [
              | ok a w' ↦ ok (some a) w'
              | err e w' ↦ if is_no_rows e then ok none w' else err e w'
            ])).db
    go w (ok a w') k = k
    go w (err e w') k = elim (Bool-cases (is_no_rows e)) [ inl t ↦ rw t k | inr t ↦ rw t k ]

get-Moves : (id : String) → Moves Same (Profiles.get id)
unfolding Profiles.get
get-Moves id =
    Moves-bind Same-Preorder _ _ (Moves-query Same-Preorder _) (λ o. Moves-row Same-Preorder o)

profile_of-Moves : (services : Services) (m : Graph.Model) → Moves Same (profile_of services m)
unfolding profile_of
profile_of-Moves services m =
    Moves-if Same-Preorder (not (is_empty m.profile) && services.has_providers) _ _
      (λ _.
        Moves-bind Same-Preorder _ _
          (optional_row-Moves (Profiles.get m.profile) (get-Moves m.profile))
          (λ o. Moves-pure Same-Preorder _))
      (λ _. Moves-pure Same-Preorder _)

pub semantic_route-Moves :
    (services : Services) (prompt manual_agent_id : String) (snapshot : Option Graph.Snapshot)
    (fallback : RouteDecision) (conversation : String)
    → Moves Same (semantic_route services prompt manual_agent_id snapshot fallback conversation)
unfolding semantic_route
semantic_route-Moves services prompt manual_agent_id snapshot fallback conversation =
    binds _ _ (found-Moves _ _) (λ adapter. binds _ _ (found-Moves _ _) (λ resolve_env.
      binds _ _ (found-Moves _ _) (λ s. binds _ _ (found-Moves _ _) (λ agent.
        binds _ _ (Moves-refuse_if Same-Preorder _ _) (λ _. binds _ _ (found-Moves _ _) (λ model.
          binds _ _ (profile_of-Moves services model) (λ profile.
            binds _ _ (found-Moves _ _) (λ api_key. binds _ _ (found-Moves _ _) (λ content.
              binds _ _ (found-Moves _ _) (λ d.
                binds _ _ (Moves-refuse_if Same-Preorder _ _)
                  (λ _. Moves-pure Same-Preorder d)))))))))))
  where
    binds :
        {A B : Type 0} (m : Exec A) (f : A → Exec B)
        → Moves Same m
        → ((a : A) → Moves Same (f a))
        → Moves Same (m >>= f)
    binds m f h k = Moves-bind Same-Preorder m f h k
