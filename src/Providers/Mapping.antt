-- ===== src/Providers/Mapping.antt =====
-- internal/providers/store.go as what it promises: a mapping from identifiers to profiles.
use nomici_orchestrator.Common.{
  ℕ, suc, true, ◌⊎◌, subst, String, ◌==◌, eq_iff, ◌≡◌, refl, ap, ◌∙◌, Option, none, some, List, [],
  ◌∷◌, arith, any, Bool-cases, inl, inr, if◌then◌else◌,
}
use nomici_orchestrator.Common.Table
use nomici_orchestrator.Common.Table.{touch}
use nomici_orchestrator.Common.Table.Finding.{find-none, find-some, find-test}
use nomici_orchestrator.Common.Table.Keyed.{find-added, find-refreshed}
use nomici_orchestrator.Store.{Error, Db, World, Outcome, ok, err, driver, Exec, exec, ◌>>=◌}
use nomici_orchestrator.Providers.{normalize_kind}
use nomici_orchestrator.Providers.Types.{Profile}
use nomici_orchestrator.Providers.Profiles.{
  has_id, new_row, refreshed, upsert_profile, save, delete_profile, delete, validate,
}
use nomici_orchestrator.Providers.Valid.{IsValid, Passes-IsValid, IsValid-Passes, validate-Checks}

abbrev pub Mapping : Type 0
Mapping = String → Option Profile

-- the mapping that the table stands for
abbrev pub mapping : Db → Mapping
mapping db id = Table.find (has_id id) db.provider_profiles

pub data Operation : Type 0 where
  put : Profile → Operation
  drop : String → Operation

-- The profile that a put leaves at a time: what was given, under the kind that its name stands for,
-- with the time of the first put where there was a profile.
abbrev pub put_profile : String → Profile → Option Profile → Profile
put_profile at p before = record {
  id = p.id;
  name = p.name;
  kind = normalize_kind p.kind;
  base_url = p.base_url;
  model = p.model;
  api_key_env = p.api_key_env;
  capabilities = p.capabilities;
  context_window = p.context_window;
  cost_per_1m_input = p.cost_per_1m_input;
  cost_per_1m_output = p.cost_per_1m_output;
  created_at = elim before [ none ↦ at | some old ↦ old.created_at ];
  updated_at = at;
}

-- what an operation does to the mapping at a time
abbrev pub apply : String → Operation → Mapping → Mapping
apply at (put p) m id = if p.id == id then some (put_profile at p (m id)) else m id
apply at (drop dropped) m id = if dropped == id then none else m id

-- what an operation asks for
abbrev pub Allowed : Operation → Type 0
Allowed (put p) = IsValid p
Allowed (drop id) = Unit

-- the operation of the store
abbrev pub run : Operation → Exec Unit
run (put p) = save p
run (drop id) = delete id

find-remove :
    (dropped id : String) (rs : List Profile)
    → Table.find (has_id id) (Table.remove (has_id dropped) rs)
      ≡ (if dropped == id then none else Table.find (has_id id) rs)
unfolding Table.find Table.remove
find-remove dropped id [] = ground arith
find-remove dropped id (r ∷ rs) =
    ground
      (arith, find-remove dropped id rs, eq_iff r.id dropped, eq_iff r.id id, eq_iff dropped id)

abbrev by_id : Profile → String
by_id p = p.id

refreshed-put_profile :
    (p : Profile) (at : String) (old : Profile)
    → old.id ≡ p.id
    → some (refreshed p at old) ≡ some (put_profile at p (some old))
refreshed-put_profile p at old same =
    ap (λ id. some (record (put_profile at p (some old)) { id = id })) same

mapping-upsert_profile :
    (p : Profile) (at : String) (db : Db) (id : String)
    → mapping (upsert_profile p at db) id ≡ apply at (put p) (mapping db) id
unfolding upsert_profile
mapping-upsert_profile p at db id = elim (Bool-cases (any (has_id p.id) db.provider_profiles)) [
  | inl e ↦
      let (old, found) = find-some (has_id p.id) db.provider_profiles e in
      rw e (
        find-refreshed by_id p.id id (refreshed p at) db.provider_profiles (λ r. refl)
        ∙ elim (Bool-cases (p.id == id)) [
          | inl t ↦
              let there : mapping db id ≡ some old =
                subst (λ x. mapping db x ≡ some old) ((eq_iff p.id id).0 t) found in
              let same =
                (eq_iff old.id p.id).0 (find-test (has_id p.id) db.provider_profiles found) in
              rw (t, there) (refreshed-put_profile p at old same)
          | inr t ↦ rw t refl
        ])
  | inr e ↦ rw e (
      find-added by_id id db.provider_profiles (new_row p at) e ∙ elim (Bool-cases (p.id == id)) [
        | inl t ↦
            let gone : mapping db id ≡ none =
              subst (λ x. mapping db x ≡ none) ((eq_iff p.id id).0 t)
                (find-none (has_id p.id) db.provider_profiles e) in
            rw (t, gone) refl
        | inr t ↦ rw t refl
      ])
]

-- the last thing that was asked of the database failed
abbrev pub Refused : Error → World → World → Type 0
Refused e w w' = (e ≡ driver) × ((n : ℕ) × (w'.tick ≡ suc n) × (w.env.fails n ≡ true))

-- What the store did with an operation. Where it went well, the operation
-- was allowed and the table stands for what the operation makes of the mapping. Where it failed, the
-- operation was not allowed, or the database refused the statement, and the table is as it was.
abbrev pub Simulates : Operation → World → Outcome Unit → Type 0
Simulates op w (ok u w') =
    Allowed op × ((id : String) → mapping w'.db id ≡ apply (w.env.now w.tick) op (mapping w.db) id)
Simulates op w (err e w') = ((¬ (Allowed op)) ⊎ Refused e w w') × (w'.db ≡ w.db)

save-Simulates : (p : Profile) (w : World) → Simulates (put p) w (save p w)
unfolding save ◌>>=◌ validate
save-Simulates p w = elim (validate-Checks p w) [
  | inl (passes, e) ↦ rw e (elim (Bool-cases (w.env.fails (suc w.tick))) [
    | inl f ↦ rw f (inr (refl, (suc w.tick, refl, f)), refl)
    | inr f ↦ rw f (Passes-IsValid p passes, mapping-upsert_profile p (w.env.now w.tick) w.db)
  ])
  | inr (n, (x, e)) ↦ rw e (inl (λ v. n (IsValid-Passes p v)), refl)
]

delete-Simulates : (id : String) (w : World) → Simulates (drop id) w (delete id w)
unfolding delete delete_profile exec
delete-Simulates dropped w = elim (Bool-cases (w.env.fails w.tick)) [
  | inl e ↦ rw e (inr (refl, (w.tick, refl, e)), refl)
  | inr e ↦ rw e (tt, λ id. find-remove dropped id w.db.provider_profiles)
]

-- The store of profiles refines the mapping, whatever the profile or the identifier, the time and the
-- failures of statements. Where Save returns, the profile was valid, and what the table stands for is
-- the mapping with that profile: each field as it was given, the kind normalized, the time of the first
-- save kept. Where it fails, the profile was not valid or the environment let the statement fail, and the
-- database is as it was. Delete removes the identifier from the mapping, unless the environment lets the
-- statement fail.
pub run-Simulates : (op : Operation) (w : World) → Simulates op w (run op w)
run-Simulates (put p) w = save-Simulates p w
run-Simulates (drop id) w = delete-Simulates id w
