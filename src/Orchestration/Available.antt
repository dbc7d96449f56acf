-- ===== src/Orchestration/Available.antt =====
-- internal/orchestration/router.go MatchRoles: which roles are available.
use nomici_orchestrator.Common.{
  String, ◌==◌, eq_iff, ◌≡◌, refl, ◌∙◌, Bool, true, false, ◌&&◌, ◌||◌, none, some, List, [], ◌∷◌,
  arith, any, lookup, has_key, assign, Bool-cases, inl, inr,
}
use nomici_orchestrator.Graph.Types as Graph
use nomici_orchestrator.Orchestration.Types.{PackRole}
use nomici_orchestrator.Orchestration.Route.{has_agent}
use nomici_orchestrator.Orchestration.Match.{available_from, available_roles}

-- a role of the list has the identifier
abbrev pub names_role : List PackRole → String → Bool
names_role rs id = any (λ (r : PackRole). r.id == id) rs

has_key-assign :
    (id k : String) (r : PackRole) (m : List (String × PackRole))
    → has_key id (assign k r m) ≡ (k == id || has_key id m)
has_key-assign id k r [] = refl
has_key-assign id k r (e ∷ m) = elim (Bool-cases (e.0 == k)) [
  | inl t ↦ let same : e.0 ≡ k = (eq_iff e.0 k).0 t in rw t (rw same (ground arith))
  | inr f ↦ rw f (ground (arith, has_key-assign id k r m))
]

has_key-available_from :
    (s : Graph.Snapshot) (id : String) (rs : List PackRole) (found : List (String × PackRole))
    → has_key id (available_from s rs found)
      ≡ (has_key id found || (names_role rs id && has_agent s id))
unfolding available_from
has_key-available_from s id [] found = ground arith
has_key-available_from s id (r ∷ rs) found =
    has_key-available_from s id rs _ ∙ (elim (Bool-cases (has_agent s r.id)) [
      | inl t ↦ rw t (
          rw (has_key-assign id r.id r found) (elim (Bool-cases (r.id == id)) [
            | inl e ↦
                let same : r.id ≡ id = (eq_iff r.id id).0 e in
                let is : has_agent s id ≡ true = rw (← same) t in rw e (rw is (ground arith))
            | inr e ↦ rw e refl
          ]))
      | inr f ↦ rw f (elim (Bool-cases (r.id == id)) [
        | inl e ↦
            let same : r.id ≡ id = (eq_iff r.id id).0 e in
            let is : has_agent s id ≡ false = rw (← same) f in rw is (ground arith)
        | inr e ↦ rw e refl
      ])
    ])

-- A role is available exactly if the manifest names it and it is an agent of the graph.
pub has_key-available_roles :
    (s : Graph.Snapshot) (id : String) (rs : List PackRole)
    → has_key id (available_roles s rs) ≡ (names_role rs id && has_agent s id)
unfolding available_roles
has_key-available_roles s id rs = has_key-available_from s id rs []

pub lookup-eq-none :
    (id : String) (m : List (String × PackRole)) → lookup id m ≡ none → has_key id m ≡ false
lookup-eq-none id [] h = refl
lookup-eq-none id (e ∷ m) h = elim (Bool-cases (e.0 == id)) [
  | inl t ↦ absurd (ground arith)
  | inr f ↦ rw f (lookup-eq-none id m (ground arith))
]

pub lookup-eq-some :
    (id : String) (m : List (String × PackRole)) {r : PackRole}
    → lookup id m ≡ some r
    → has_key id m ≡ true
lookup-eq-some id [] h = absurd (ground arith)
lookup-eq-some id (e ∷ m) {r} h = elim (Bool-cases (e.0 == id)) [
  | inl t ↦ rw t refl
  | inr f ↦ rw f (lookup-eq-some id m {r = r} (ground arith))
]
