-- ===== src/Orchestration/Partition.antt =====
-- internal/orchestration/router.go MatchRoles: which roles take part, and with which tools.
use nomici_orchestrator.Common.{
  ℕ, suc, String, ◌==◌, eq_iff, eq_refl, ==_comm, ◌≡◌, refl, sym, ◌∙◌, Bool, true, false, not, ◌&&◌,
  ◌||◌, Option, none, some, List, [], ◌∷◌, ◌++◌, arith, any, lookup, has_key, Bool-cases, inl, inr,
  if◌then◌else◌, All, All-append,
}
use nomici_orchestrator.Common.Table.{NoClash}
use nomici_orchestrator.Common.Table.Laws.{NoClash-append_one, All-map}
use nomici_orchestrator.Graph.Types as Graph
use nomici_orchestrator.Orchestration.Types.{
  RouteDecision, PackRole, Manifest, RoleSelection, SkippedRole, MatchResult,
}
use nomici_orchestrator.Orchestration.Route.{has_text, has_agent, unique}
use nomici_orchestrator.Orchestration.Match.{
  selection, select_roles, is_chosen, skipped_of, selected_ids, available_roles, unmatched, matched,
  no_roles, match_roles,
}
use nomici_orchestrator.Orchestration.Unique.{IsClean, unique-IsClean, unique-append, clean-unique}
use nomici_orchestrator.Orchestration.Available.{
  names_role, has_key-available_roles, lookup-eq-some,
}

abbrev pub is_skipped : List SkippedRole → String → Bool
is_skipped skipped id = any (λ (r : SkippedRole). r.role_id == id) skipped

-- one of the selections needs the tool
abbrev pub needs_tool : List RoleSelection → String → Bool
needs_tool chosen tool = any (λ (c : RoleSelection). has_text c.required_tools tool) chosen

abbrev pub same_role : RoleSelection → RoleSelection → Bool
same_role a b = b.role_id == a.role_id

any-snoc :
    {A : Type 0} (p : A → Bool) (xs : List A) (x : A) → any p (xs ++ x ∷ []) ≡ (any p xs || p x)
any-snoc p [] x = ground arith
any-snoc p (y ∷ xs) x = ground (arith, any-snoc p xs x)

module _ (s : Graph.Snapshot) (d : RouteDecision) (available : List (String × PackRole))
    (wanted : List String) where
  -- what the loop of MatchRoles keeps
  record Keeps (taken : List String) (chosen : List RoleSelection) (tools : List String)
      : Type 0 where
    same : (id : String) → is_chosen chosen id ≡ has_text taken id
    once : NoClash same_role chosen
    there : All (λ c. has_key c.role_id available ≡ true) chosen
    clean : All IsClean tools
    covers : (v : String) → has_text tools v ≡ (has_text wanted v || needs_tool chosen v)

  step-Keeps :
      (index : ℕ) (id : String) (r : PackRole) (taken : List String) (chosen : List RoleSelection)
      (tools : List String)
      → has_text taken id ≡ false
      → lookup id available ≡ some r
      → Keeps taken chosen tools
      → Keeps
          (id ∷ taken)
          (chosen ++ selection s d index id r ∷ [])
          (unique (tools ++ (selection s d index id r).required_tools))
  unfolding selection
  step-Keeps index id r taken chosen tools new found h = record {
    same = λ x.
        any-snoc (λ (c : RoleSelection). c.role_id == x) chosen (selection s d index id r)
        ∙ rw (h.same x) (ground arith);
    once =
        NoClash-append_one same_role (λ a b. ==_comm b.role_id a.role_id) (selection s d index id r)
          chosen (h.same id ∙ new) h.once;
    there = All-append _ chosen _ h.there (lookup-eq-some id available {r = r} found, tt);
    clean = unique-IsClean _;
    covers = λ v.
        unique-append v tools _ h.clean (unique-IsClean _)
        ∙ rw (h.covers v) (
            rw
              (any-snoc (λ (c : RoleSelection). has_text c.required_tools v) chosen
                (selection s d index id r))
              (ground arith));
  }

  abbrev Kept : ℕ → List String → List String → List RoleSelection → List String → Type 0
  Kept index ids taken chosen tools =
      (last : List String) × Keeps last (select_roles s d available index ids taken chosen tools).0
        (select_roles s d available index ids taken chosen tools).1

  -- a round of the loop, of the role that it found
  round :
      (index : ℕ) (id : String) (ids taken : List String) (chosen : List RoleSelection)
      (tools : List String)
      → ((t : List String) (c : List RoleSelection) (u : List String)
          → Keeps t c u
          → Kept (suc index) ids t c u)
      → Keeps taken chosen tools
      → (found : Option PackRole)
      → ((r : PackRole)
          → found ≡ some r
          → (has_text taken id ≡ false) × (lookup id available ≡ some r))
      → Kept
          (suc index)
          ids
          (elim found [ none ↦ taken | some r ↦ id ∷ taken ])
          (elim found [ none ↦ chosen | some r ↦ chosen ++ selection s d index id r ∷ [] ])
          (elim found [
            | none ↦ tools
            | some r ↦ unique (tools ++ (selection s d index id r).required_tools)
          ])
  round index id ids taken chosen tools rest h none fits = rest taken chosen tools h
  round index id ids taken chosen tools rest h (some r) fits =
      let (new, there) = fits r refl in
      rest _ _ _ (step-Keeps index id r taken chosen tools new there h)

  fits_if :
      (b : Bool) (o : Option PackRole) (r : PackRole)
      → (if b then none else o) ≡ some r
      → (b ≡ false) × (o ≡ some r)
  fits_if true o r h = absurd (ground arith)
  fits_if false o r h = (refl, h)

  select_roles-Keeps :
      (index : ℕ) (ids taken : List String) (chosen : List RoleSelection) (tools : List String)
      → Keeps taken chosen tools
      → Kept index ids taken chosen tools
  unfolding select_roles
  select_roles-Keeps index [] taken chosen tools h = (taken, h)
  select_roles-Keeps index (id ∷ ids) taken chosen tools h =
      round index id ids taken chosen tools (select_roles-Keeps (suc index) ids) h _
        (fits_if (has_text taken id) (lookup id available))

is_skipped-available :
    (available : List (String × PackRole)) (chosen : List RoleSelection) (rs : List PackRole)
    (id : String)
    → is_skipped (skipped_of available chosen rs) id
      ≡ (names_role rs id && (has_key id available && not (is_chosen chosen id)))
unfolding skipped_of
is_skipped-available available chosen [] id = refl
is_skipped-available available chosen (r ∷ rs) id =
    let rest = is_skipped-available available chosen rs id in
    elim (Bool-cases (r.id == id)) [
      | inl e ↦
          let same : r.id ≡ id = (eq_iff r.id id).0 e in
          rw same (elim (Bool-cases (has_key id available && not (is_chosen chosen id))) [
            | inl k ↦ rw k (rw (eq_refl id) refl)
            | inr k ↦ rw k (rest ∙ ground arith)
          ])
      | inr e ↦ elim (Bool-cases (has_key r.id available && not (is_chosen chosen r.id))) [
        | inl k ↦ rw k (rw e rest)
        | inr k ↦ rw k (rw e rest)
      ]
    ]

named :
    (manifest : Manifest) (s : Graph.Snapshot) (c : RoleSelection)
    → has_key c.role_id (available_roles s manifest.roles) ≡ true
    → (names_role manifest.roles c.role_id ≡ true) × (has_agent s c.role_id ≡ true)
named manifest s c h =
    let both : (names_role manifest.roles c.role_id && has_agent s c.role_id) ≡ true =
      sym (has_key-available_roles s c.role_id manifest.roles) ∙ h in
    (ground arith, ground arith)

-- A match of a manifest and a graph in which no role takes part twice. A role takes part or is skipped
-- only if the manifest names it and it is an agent of the graph, and each such role does one of the
-- two and not both. A tool is needed exactly if the decision or a role that takes part needs it.
pub record IsPartition (manifest : Manifest) (s : Graph.Snapshot) (d : RouteDecision)
    (m : MatchResult) : Type 0 where
  pub once : NoClash same_role m.roles
  pub takes_part :
      All
        (λ c. (names_role manifest.roles c.role_id ≡ true) × (has_agent s c.role_id ≡ true))
        m.roles
  pub skips :
      (id : String)
      → is_skipped m.skipped_roles id
        ≡ (names_role manifest.roles id && has_agent s id && not (is_chosen m.roles id))
  pub tools :
      (v : String)
      → has_text m.required_tools v ≡ (has_text (unique d.required_tools) v || needs_tool m.roles v)

matched-IsPartition :
    (manifest : Manifest) (s : Graph.Snapshot) (start_agent_id : String) (d : RouteDecision)
    → IsPartition manifest s d (matched manifest s start_agent_id d)
unfolding matched
matched-IsPartition manifest s start_agent_id d =
    let available = available_roles s manifest.roles in
    let (last, kept) =
      select_roles-Keeps s d available (unique d.required_tools) 0
        (selected_ids manifest available d) [] [] (unique d.required_tools)
        (record {
          same = λ id. refl;
          once = tt;
          there = tt;
          clean = unique-IsClean d.required_tools;
          covers = λ v. ground arith;
        }) in
    record {
      once = kept.once;
      takes_part = All-map _ _ (named manifest s) _ kept.there;
      skips = λ id.
          is_skipped-available available _ manifest.roles id
          ∙ rw (has_key-available_roles s id manifest.roles) (ground arith);
      tools = λ v. clean-unique v _ kept.clean ∙ kept.covers v;
    }

unmatched-IsPartition :
    (manifest : Manifest) (s : Graph.Snapshot) (start_agent_id : String) (d : RouteDecision)
    → manifest.roles ≡ []
    → IsPartition manifest s d (unmatched start_agent_id d)
unfolding unmatched
unmatched-IsPartition manifest s start_agent_id d empty = record {
  once = tt;
  takes_part = tt;
  skips = λ id. rw empty refl;
  tools = λ v. ground arith;
}

no_roles-eq-true : (rs : List PackRole) → no_roles rs ≡ true → rs ≡ []
no_roles-eq-true [] h = refl
no_roles-eq-true (r ∷ rs) h = absurd (ground arith)

-- MatchRoles of an entrypoint of the manifest, in a graph, is a partition of the roles: none takes part
-- twice; the manifest names each one that takes part or is skipped, and it is an agent of the graph;
-- each such role does one of the two and not both. A tool is needed exactly if the decision or a role
-- that takes part needs it.
pub match_roles-IsPartition :
    (manifest : Manifest) (s : Graph.Snapshot) (start_agent_id : String) (d : RouteDecision)
    → has_text manifest.entrypoints start_agent_id ≡ true
    → IsPartition manifest s d (match_roles manifest (some s) start_agent_id d)
unfolding match_roles
match_roles-IsPartition manifest s start_agent_id d entry =
    elim (Bool-cases (no_roles manifest.roles)) [
      | inl e ↦
          rw e
            (unmatched-IsPartition manifest s start_agent_id d (no_roles-eq-true manifest.roles e))
      | inr e ↦ rw (e, entry) (matched-IsPartition manifest s start_agent_id d)
    ]
