-- ===== src/Providers/Valid.antt =====
-- internal/providers/types.go Validate: what it passes.
use nomici_orchestrator.Common.{not, ◌&&◌, ◌⊎◌, ◌≡◌, refl, ◌∙◌, Bool, true, false, arith, inl, inr}
use nomici_orchestrator.Store.{
  World, ok, err, Exec, Error, required, unsupported, refuse_if, ◌>>=◌, ◌>>◌,
}
use nomici_orchestrator.Store.Steps.{bind-ok, bind-err}
use nomici_orchestrator.SharedContext.Redaction.{blank}
use nomici_orchestrator.Providers.{known_kind}
use nomici_orchestrator.Providers.Types.{Profile}
use nomici_orchestrator.Providers.Profiles.{validate, requires_api_key}

-- what a profile must have to be put
pub record IsValid (p : Profile) : Type 0 where
  pub named : (blank p.id ≡ false) × (blank p.name ≡ false)
  pub known : (blank p.kind ≡ false) × (known_kind p.kind ≡ true)
  pub reachable : (blank p.model ≡ false) × (blank p.base_url ≡ false)
  pub key : requires_api_key p ≡ true → blank p.api_key_env ≡ false

-- a check, which passes where `P` holds and writes nothing
abbrev pub Checks : Type 0 → Exec Unit → Type 0
Checks P m = (w : World) → (P × (m w ≡ ok tt w)) ⊎ ((¬ P) × ((e : Error) × (m w ≡ err e w)))

refuse_if-Checks : (b : Bool) (e : Error) → Checks (b ≡ false) (refuse_if b e)
unfolding refuse_if
refuse_if-Checks true e w = inr ((λ h. ground arith), (e, refl))
refuse_if-Checks false e w = inl (refl, refl)

then-Checks : {P Q : Type 0} (m k : Exec Unit) → Checks P m → Checks Q k → Checks (P × Q) (m >> k)
unfolding ◌>>=◌
then-Checks m k hm hk w = elim (hm w) [
  | inl (p, e) ↦
      let step : (m >> k) w ≡ k w = bind-ok m (λ _. k) w e in
      elim (hk w) [
        | inl (q, a) ↦ inl ((p, q), step ∙ a)
        | inr (n, (x, a)) ↦ inr ((λ h. n h.1), (x, step ∙ a))
      ]
  | inr (n, (x, e)) ↦ inr ((λ h. n h.0), (x, bind-err m (λ _. k) w e))
]

-- the tests of Validate, in its order
abbrev pub Passes : Profile → Type 0
Passes p =
    (blank p.id ≡ false)
    × ((blank p.name ≡ false)
        × ((blank p.kind ≡ false)
            × ((not (known_kind p.kind) ≡ false)
                × ((blank p.model ≡ false)
                    × ((blank p.base_url ≡ false)
                        × ((requires_api_key p && blank p.api_key_env) ≡ false))))))

pub Passes-IsValid : (p : Profile) → Passes p → IsValid p
Passes-IsValid p (a, (b, (c, (d, (e, (f, g)))))) = record {
  named = (a, b);
  known = (c, ground arith);
  reachable = (e, f);
  key = λ needed. ground arith;
}

pub IsValid-Passes : (p : Profile) → IsValid p → Passes p
IsValid-Passes p v = (
  v.named.0,
  (
    v.named.1,
    (
      v.known.0,
      (ground (arith, v.known.1), (v.reachable.0, (v.reachable.1, ground (arith, v.key)))),
    ),
  ),
)

pub validate-Checks : (p : Profile) → Checks (Passes p) (validate p)
unfolding validate
validate-Checks p =
    let key =
      refuse_if-Checks (requires_api_key p && blank p.api_key_env) (required "api_key_env") in
    let url = then-Checks _ _ (refuse_if-Checks (blank p.base_url) (required "base_url")) key in
    let model = then-Checks _ _ (refuse_if-Checks (blank p.model) (required "model")) url in
    let known =
      then-Checks _ _ (refuse_if-Checks (not (known_kind p.kind)) (unsupported p.kind)) model in
    let kind = then-Checks _ _ (refuse_if-Checks (blank p.kind) (required "kind")) known in
    let name = then-Checks _ _ (refuse_if-Checks (blank p.name) (required "name")) kind in
    then-Checks _ _ (refuse_if-Checks (blank p.id) (required "id")) name
