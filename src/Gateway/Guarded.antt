-- ===== src/Gateway/Guarded.antt =====
-- internal/gateway/semantic_router.go: what a model cannot take from the route of a prompt.
use nomici_orchestrator.Common.{
  String, ◌==◌, eq_iff, ◌≡◌, refl, sym, ◌∙◌, ap, subst, Bool, true, false, not, ◌&&◌, Option, none,
  some, List, [], ◌∷◌, ◌++◌, arith, All, is_empty, leb, Bool-cases, inl, inr, if◌then◌else◌,
}
use nomici_orchestrator.Graph.Types as Graph
use nomici_orchestrator.Store.{
  Error, final, World, Outcome, ok, err, Exec, pure, attempt, ◌>>=◌, refuse_if, unsupported,
}
use nomici_orchestrator.Store.Inversion.{bind-eq-ok, pure-eq-ok, refuse_if-eq-ok}
use nomici_orchestrator.Store.Steps.{bind-ok, bind-err}
use nomici_orchestrator.Store.Moves.{Moves}
use nomici_orchestrator.Gateway.Silent.{Same, semantic_route-Moves}
use nomici_orchestrator.Orchestration.Types.{
  RouteDecision, mode_direct_reply, mode_clarify, valid_route_mode,
}
use nomici_orchestrator.Orchestration.Route.{has_text, route}
use nomici_orchestrator.Orchestration.Unique.{IsClean, has_trimmed, unique-Distinct_members}
use nomici_orchestrator.Orchestration.Reviewed.{route-IsGuarded}
use nomici_orchestrator.Gateway.Semantic.{
  Services, polish_route_decision, semantic_route_accepted, merge_route_defaults, vague,
}
use nomici_orchestrator.Gateway.Intent.{semantic_route, settled, route_from, route_chat_intent}

-- The decision keeps what the other one demands: the review of the plan, each tool, and the agent that
-- was named by hand.
pub record Keeps (fallback d : RouteDecision) : Type 0 where
  pub review : fallback.needs_plan_review ≡ true → d.needs_plan_review ≡ true
  pub tools :
      (v : String) → has_text fallback.required_tools v ≡ true → has_text d.required_tools v ≡ true
  pub manual : d.manual_agent_id ≡ fallback.manual_agent_id

has_trimmed-append :
    (v : String) (xs ys : List String) → has_trimmed ys v ≡ true → has_trimmed (xs ++ ys) v ≡ true
has_trimmed-append v [] ys h = h
has_trimmed-append v (x ∷ xs) ys h = ground (arith, has_trimmed-append v xs ys h)

-- a clean text is found when it is trimmed, and is not empty
clean-found :
    (v : String) (xs : List String)
    → All IsClean xs
    → has_text xs v ≡ true
    → (is_empty v ≡ false) × (has_trimmed xs v ≡ true)
clean-found v [] h k = absurd (ground arith)
clean-found v (x ∷ xs) h k = elim (Bool-cases (x == v)) [
  | inl e ↦ let same : x ≡ v = (eq_iff x v).0 e in (rw (← same) h.0.1, rw h.0.0 (rw e refl))
  | inr e ↦ let rest = clean-found v xs h.1 (ground arith) in (rest.0, ground (arith, rest.1))
]

-- only the clarification is polished
polish-eq :
    (d : RouteDecision) → (c : String) × (polish_route_decision d ≡ record d { clarification = c })
unfolding polish_route_decision
polish-eq d = elim (Bool-cases (not (d.mode == mode_clarify))) [
  | inl e ↦ rw e (d.clarification, refl)
  | inr e ↦ rw e (either _ d)
]
  where
    either :
        (b : Bool) (x : RouteDecision)
        → (c : String) × ((if b then record x { clarification = vague } else x)
            ≡ record x { clarification = c })
    either true x = (vague, refl)
    either false x = (x.clarification, refl)

polish-Keeps :
    (fallback d : RouteDecision) → Keeps fallback d → Keeps fallback (polish_route_decision d)
polish-Keeps fallback d h =
    let (c, e) = polish-eq d in
    rw e (record { review = h.review; tools = h.tools; manual = h.manual })

Keeps-polish :
    (fallback d : RouteDecision) → Keeps (polish_route_decision fallback) d → Keeps fallback d
Keeps-polish fallback d h =
    let (c, e) = polish-eq fallback in
    let k : Keeps (record fallback { clarification = c }) d = subst (λ f. Keeps f d) e h in
    record { review = k.review; tools = k.tools; manual = k.manual }

polish-mode : (d : RouteDecision) → (polish_route_decision d).mode ≡ d.mode
polish-mode d = let (c, e) = polish-eq d in ap (λ (x : RouteDecision). x.mode) e

polish-tools : (d : RouteDecision) → (polish_route_decision d).required_tools ≡ d.required_tools
polish-tools d = let (c, e) = polish-eq d in ap (λ (x : RouteDecision). x.required_tools) e

merge-Keeps :
    (d fallback : RouteDecision)
    → All IsClean fallback.required_tools
    → Keeps fallback (merge_route_defaults d fallback)
unfolding merge_route_defaults
merge-Keeps d fallback clean = record {
  review = λ k. ground arith;
  tools = λ v k.
      let (filled, trimmed) = clean-found v fallback.required_tools clean k in
      (unique-Distinct_members (d.required_tools ++ fallback.required_tools)).1 v
      ∙ rw (filled, has_trimmed-append v d.required_tools fallback.required_tools trimmed) refl;
  manual = refl;
}

settled-Keeps :
    (fallback : RouteDecision) (proposed : Option RouteDecision)
    → All IsClean fallback.required_tools
    → Keeps fallback (settled fallback proposed)
unfolding settled
settled-Keeps fallback none clean = record { review = λ k. k; tools = λ v k. k; manual = refl }
settled-Keeps fallback (some d) clean = elim (Bool-cases (semantic_route_accepted d fallback)) [
  | inl e ↦ rw e (polish-Keeps fallback _ (merge-Keeps d fallback clean))
  | inr e ↦ rw e (record { review = λ k. k; tools = λ v k. k; manual = refl })
]

settled-mode :
    (fallback : RouteDecision) (proposed : Option RouteDecision)
    → valid_route_mode fallback.mode ≡ true
    → ((d : RouteDecision) → proposed ≡ some d → valid_route_mode d.mode ≡ true)
    → valid_route_mode (settled fallback proposed).mode ≡ true
unfolding settled merge_route_defaults
settled-mode fallback none h k = h
settled-mode fallback (some d) h k = elim (Bool-cases (semantic_route_accepted d fallback)) [
  | inl e ↦ rw e (rw (polish-mode (merge_route_defaults d fallback)) (k d refl))
  | inr e ↦ rw e h
]

-- what is returned has the property
abbrev Ends : {A : Type 0} → (A → Type 0) → Exec A → Type 0
Ends {A} P m = (w : World) (a : A) (w' : World) → m w ≡ ok a w' → P a

bind-Ends :
    {A B : Type 0} (P : B → Type 0) (m : Exec A) (f : A → Exec B)
    → ((a : A) → Ends P (f a))
    → Ends P (m >>= f)
bind-Ends P m f h w b w' e = let (a, w₁, first, rest) = bind-eq-ok m f w e in h a w₁ b w' rest

allowed-Ends :
    (d : RouteDecision)
    → Ends
        (λ (x : RouteDecision). valid_route_mode x.mode ≡ true)
        (refuse_if (not (valid_route_mode d.mode)) (unsupported d.mode) >>= λ _. pure d)
allowed-Ends d w x w' e =
    let (u, w₁, checked, rest) = bind-eq-ok _ _ w e in
    let (valid, _) = refuse_if-eq-ok _ _ w checked in
    let (same, _) = pure-eq-ok d w₁ rest in rw same (ground arith)

semantic_route-Ends :
    (services : Services) (prompt manual_agent_id : String) (snapshot : Option Graph.Snapshot)
    (fallback : RouteDecision) (conversation : String)
    → Ends
        (λ (d : RouteDecision). valid_route_mode d.mode ≡ true)
        (semantic_route services prompt manual_agent_id snapshot fallback conversation)
unfolding semantic_route
semantic_route-Ends services prompt manual_agent_id snapshot fallback conversation =
    bind-Ends _ _ _ (λ adapter. bind-Ends _ _ _ (λ resolve_env. bind-Ends _ _ _ (λ s.
      bind-Ends _ _ _ (λ agent. bind-Ends _ _ _ (λ _. bind-Ends _ _ _ (λ model.
        bind-Ends _ _ _ (λ profile.
          bind-Ends _ _ _
            (λ api_key. bind-Ends _ _ _ (λ content. bind-Ends _ _ _ allowed-Ends)))))))))

-- what routeChatIntent did with the decision of Route
pub record IsRouted (fallback : RouteDecision) (m : Exec RouteDecision) (w : World) : Type 0 where
  pub decision : RouteDecision
  pub after : World
  pub returns : m w ≡ ok decision after
  pub keeps : Keeps fallback decision
  pub mode : valid_route_mode decision.mode ≡ true
  pub db : after.db ≡ w.db

attempt-ok :
    (m : Exec (Option RouteDecision)) (w : World) {o : Option RouteDecision} {w' : World}
    → m w ≡ ok o w'
    → attempt none m w ≡ ok o w'
unfolding attempt
attempt-ok m w h =
    ap
      (λ (x : Outcome (Option RouteDecision)). elim x as (λ y. Outcome (Option RouteDecision)) [
        | ok b v ↦ ok b v
        | err e v ↦ ok none v
      ])
      h

attempt-err :
    (m : Exec (Option RouteDecision)) (w : World) {e : Error} {w' : World}
    → m w ≡ err e w'
    → attempt none m w ≡ ok none w'
unfolding attempt
attempt-err m w h =
    ap
      (λ (x : Outcome (Option RouteDecision)). elim x as (λ y. Outcome (Option RouteDecision)) [
        | ok b v ↦ ok b v
        | err e v ↦ ok none v
      ])
      h

attempted :
    (m : Exec RouteDecision) (w : World)
    → Moves Same m
    → Ends (λ (d : RouteDecision). valid_route_mode d.mode ≡ true) m
    → (proposed : Option RouteDecision) × (w' : World) × (attempt none (m >>= λ d. pure (some d)) w
        ≡ ok proposed w')
      × ((d : RouteDecision) → proposed ≡ some d → valid_route_mode d.mode ≡ true)
      × (w'.db ≡ w.db)
unfolding pure
attempted m w silent ends = go (m w) refl
  where
    some-injective : {x y : RouteDecision} → some x ≡ some y → x ≡ y
    some-injective h = ground arith

    after : (x : Outcome RouteDecision) → m w ≡ x → (final x).db ≡ w.db
    after x e = ap (λ (o : Outcome RouteDecision). (final o).db) (sym e) ∙ silent.at w

    go :
        (x : Outcome RouteDecision)
        → m w ≡ x
        → (proposed : Option RouteDecision) × (w' : World) × (attempt none
              (m >>= λ d. pure (some d))
              w
            ≡ ok proposed w')
          × ((d : RouteDecision) → proposed ≡ some d → valid_route_mode d.mode ≡ true)
          × (w'.db ≡ w.db)
    go (ok d w') e = (
      some d,
      w',
      attempt-ok _ w (bind-ok m _ w e),
      λ d' same.
          subst (λ (x : RouteDecision). valid_route_mode x.mode ≡ true) (some-injective same)
            (ends w d w' e),
      after (ok d w') e,
    )
    go (err x w') e = (
      none,
      w',
      attempt-err _ w (bind-err m _ w e),
      λ d' same. absurd (ground arith),
      after (err x w') e,
    )

route_from-IsRouted :
    (services : Services) (prompt manual_agent_id : String) (snapshot : Option Graph.Snapshot)
    (conversation : String) (fallback : RouteDecision) (w : World)
    → All IsClean fallback.required_tools
    → valid_route_mode fallback.mode ≡ true
    → IsRouted fallback
        (route_from services prompt manual_agent_id snapshot conversation fallback)
        w
unfolding route_from pure
route_from-IsRouted services prompt manual_agent_id snapshot conversation fallback w clean valid =
    elim (Bool-cases (fallback.mode == mode_direct_reply && leb 75 fallback.confidence)) [
      | inl e ↦ record {
        decision = fallback;
        after = w;
        returns = rw e refl;
        keeps = record { review = λ k. k; tools = λ v k. k; manual = refl };
        mode = valid;
        db = refl;
      }
      | inr e ↦
          let (proposed, w', asked, modes, same) =
            attempted
              (semantic_route services prompt manual_agent_id snapshot fallback conversation) w
              (semantic_route-Moves services prompt manual_agent_id snapshot fallback conversation)
              (semantic_route-Ends services prompt manual_agent_id snapshot fallback
                conversation) in
          record {
            decision = settled fallback proposed;
            after = w';
            returns = rw e (bind-ok _ (λ p. pure (settled fallback p)) w asked);
            keeps = settled-Keeps fallback proposed clean;
            mode = settled-mode fallback proposed valid modes;
            db = same;
          }
    ]

-- Whatever the model answers, and whatever fails, routeChatIntent returns a decision of one of the three
-- modes and leaves the database as it was. The decision keeps what Route demands of the prompt: the
-- review of the plan, each tool that is needed, and the agent that was named by hand.
pub route_chat_intent-IsRouted :
    (services : Services) (prompt manual_agent_id : String) (snapshot : Option Graph.Snapshot)
    (conversation : String) (w : World)
    → IsRouted
        (route prompt manual_agent_id snapshot)
        (route_chat_intent services prompt manual_agent_id snapshot conversation)
        w
unfolding route_chat_intent
route_chat_intent-IsRouted services prompt manual_agent_id snapshot conversation w =
    let d = route prompt manual_agent_id snapshot in
    let clean : All IsClean (polish_route_decision d).required_tools =
      subst (All IsClean) (sym (polish-tools d))
        (route-IsGuarded prompt manual_agent_id snapshot).clean in
    let valid : valid_route_mode (polish_route_decision d).mode ≡ true =
      subst (λ m. valid_route_mode m ≡ true) (sym (polish-mode d))
        (route-IsGuarded prompt manual_agent_id snapshot).moded in
    let r =
      route_from-IsRouted services prompt manual_agent_id snapshot conversation
        (polish_route_decision d) w clean valid in
    record {
      decision = r.decision;
      after = r.after;
      returns = r.returns;
      keeps = Keeps-polish d r.decision r.keeps;
      mode = r.mode;
      db = r.db;
    }
