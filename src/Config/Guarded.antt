-- ===== src/Config/Guarded.antt =====
-- Which settings start the service.
use Prim.Native.String.{count}
use pipe_line_gpt_backend.Prelude.{◌≤◌, ◌≡◌, ◌↔◌, refl, true, false, arith, inl, inr}
use pipe_line_gpt_backend.Exec.{ok, Outcome-cases}
use pipe_line_gpt_backend.Config.{
  Settings, Environment, Provider, validate, llm_provider_guards, production_guards, guard_provider,
  guard_production, is_insecure_secret, is_bedrock_id, is_empty,
}

-- what each provider needs
abbrev pub ProviderIsSet : Settings → Provider → Type 0
ProviderIsSet s Provider.anthropic = is_bedrock_id s.llm_model ≡ false
ProviderIsSet s Provider.bedrock =
    (is_empty s.aws_region ≡ false) × (is_bedrock_id s.llm_model ≡ true)
ProviderIsSet s Provider.vertex =
    (is_bedrock_id s.llm_model ≡ false) × (is_empty s.vertex_project_id ≡ false)

-- the key of the provider that has one
abbrev pub KeyIsSet : Settings → Provider → Type 0
KeyIsSet s Provider.anthropic = is_empty s.anthropic_api_key ≡ false
KeyIsSet s _ = Unit

-- what production needs
abbrev pub SecretsAreSet : Settings → Environment → Type 0
SecretsAreSet s Environment.production =
    (is_insecure_secret s.jwt_secret ≡ false)
    × (32 ≤ count s.jwt_secret)
    × KeyIsSet s s.llm_provider
SecretsAreSet s _ = Unit

guard_provider_iff : (s : Settings) (p : Provider) → (guard_provider s p ≡ ok s) ↔ ProviderIsSet s p
unfolding guard_provider
guard_provider_iff s Provider.anthropic = ground arith
guard_provider_iff s Provider.bedrock = ground arith
guard_provider_iff s Provider.vertex = ground arith

production_iff :
    (s : Settings) (p : Provider)
    → (guard_production s Environment.production p ≡ ok s)
      ↔ ((is_insecure_secret s.jwt_secret ≡ false) × (32 ≤ count s.jwt_secret) × KeyIsSet s p)
unfolding guard_production
production_iff s Provider.anthropic = ground arith
production_iff s Provider.bedrock = ground arith
production_iff s Provider.vertex = ground arith

guard_production_iff :
    (s : Settings) (e : Environment)
    → (guard_production s e s.llm_provider ≡ ok s) ↔ SecretsAreSet s e
unfolding guard_production
guard_production_iff s Environment.development = (λ h. tt, λ h. refl)
guard_production_iff s Environment.test = (λ h. tt, λ h. refl)
guard_production_iff s Environment.production = production_iff s s.llm_provider

guard_provider-same : (s t : Settings) (p : Provider) → guard_provider s p ≡ ok t → t ≡ s
unfolding guard_provider
guard_provider-same s t Provider.anthropic h = ground arith
guard_provider-same s t Provider.bedrock h = ground arith
guard_provider-same s t Provider.vertex h = ground arith

-- Settings are accepted, unchanged, exactly when the model fits its provider, which has its region or
-- project, and, in production, the secret of the tokens is no placeholder and has 32 characters and
-- the key of the Anthropic API is set where that API is used.
pub validate_iff :
    (s : Settings)
    → (validate s ≡ ok s) ↔ (ProviderIsSet s s.llm_provider × SecretsAreSet s s.environment)
unfolding validate llm_provider_guards production_guards
validate_iff s =
    let p = guard_provider_iff s s.llm_provider in
    let e = guard_production_iff s s.environment in
    elim (Outcome-cases (guard_provider s s.llm_provider)) [
      | inr (x, f) ↦ (λ h. absurd (ground arith), λ h. absurd (ground (arith, p.1 h.0)))
      | inl (t, f) ↦
          let same = guard_provider-same s t s.llm_provider f in
          (λ h. (p.0 (ground arith), e.0 (ground arith)), λ h. ground (arith, e.1 h.1))
    ]
