-- ===== src/Providers/Profiles.antt =====
-- internal/providers/types.go Validate, and store.go: the operations on the profiles of providers.
use nomici_orchestrator.Common.{
  String, ◌==◌, Bool, not, ◌&&◌, ◌||◌, none, some, List, [], ◌∷◌, ◌++◌, any, lookup, str_lt,
  if◌then◌else◌,
}
use nomici_orchestrator.Common.Table
use nomici_orchestrator.SharedContext.Redaction.{blank}
use nomici_orchestrator.Store.{
  Db, required, unsupported, Exec, now, exec, query, refuse_if, row, ◌>>=◌, ◌>>◌,
}
use nomici_orchestrator.Providers.{
  kind_anthropic, kind_gemini, kind_openai_compatible, normalize_kind, known_kind,
}
use nomici_orchestrator.Providers.Types.{Profile, auth_mode_none, provider_vllm, provider_ollama}

-- `m[key] == value`, where a key that is missing reads as ""
abbrev has_value : String → String → List (String × String) → Bool
has_value key value m = elim (lookup key m) [ none ↦ "" == value | some v ↦ v == value ]

unfoldable pub requires_api_key : Profile → Bool
requires_api_key p =
    let kind = normalize_kind p.kind in
    (kind == kind_anthropic || kind == kind_gemini)
    || (kind == kind_openai_compatible
        && not (has_value "auth_mode" auth_mode_none p.capabilities)
        && not (has_value "provider_id" provider_vllm p.capabilities)
        && not (has_value "provider_id" provider_ollama p.capabilities))

unfoldable pub validate : Profile → Exec Unit
unfolding requires_api_key
validate p = do
  refuse_if (blank p.id) (required "id")
  refuse_if (blank p.name) (required "name")
  refuse_if (blank p.kind) (required "kind")
  refuse_if (not (known_kind p.kind)) (unsupported p.kind)
  refuse_if (blank p.model) (required "model")
  refuse_if (blank p.base_url) (required "base_url")
  refuse_if (requires_api_key p && blank p.api_key_env) (required "api_key_env")

abbrev pub has_id : String → Profile → Bool
has_id id p = p.id == id

-- the row of a new profile
abbrev pub new_row : Profile → String → Profile
new_row p at = record p { kind = normalize_kind p.kind; created_at = at; updated_at = at }

-- the DO UPDATE SET of Save
abbrev pub refreshed : Profile → String → Profile → Profile
refreshed p at old = record (new_row p at) { id = old.id; created_at = old.created_at }

-- INSERT … ON CONFLICT(id) DO UPDATE
unfoldable pub upsert_profile : Profile → String → Db → Db
upsert_profile p at db = record db {
  provider_profiles =
      if any (has_id p.id) db.provider_profiles
      then Table.update (has_id p.id) (refreshed p at) db.provider_profiles
      else db.provider_profiles ++ new_row p at ∷ [];
}

-- Save; `now` is what the statement reads as datetime('now')
unfoldable pub save : Profile → Exec Unit
save p = do validate p; at ← now; exec (upsert_profile p at)

unfoldable pub get : String → Exec Profile
get id = do found ← query (λ db. Table.find (has_id id) db.provider_profiles); row found

unfoldable pub list : Exec (List Profile)
list = query (λ db.
    Table.order_by (λ a b. str_lt a.name b.name || (a.name == b.name && str_lt a.id b.id))
      db.provider_profiles)

unfoldable pub delete_profile : String → Db → Db
delete_profile id db = record db {
  provider_profiles = Table.remove (has_id id) db.provider_profiles;
}

-- Delete
unfoldable pub delete : String → Exec Unit
delete id = exec (delete_profile id)
