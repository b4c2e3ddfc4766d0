-- ===== src/Config.antt =====
-- backend/app/config.py: the settings that the other parts read, and the guards that the
-- settings object runs when it is built. A guard that raises ValueError is `err` with the name of
-- the variable that its message blames.
pub mod Guarded
use pipe_line_gpt_backend.Prelude.{
  ℕ, String, Bool, true, false, ◌&&◌, ◌||◌, str_eq, ltb, if◌then◌else◌,
}
use pipe_line_gpt_backend.Models.{Ratio}
use Prim.Native.String.{count}
use text.Mathlib.Text.{starts_with}
use pipe_line_gpt_backend.Exec.{Outcome, ok, err}

pub data Environment : Type 0 where
  development test production : Environment

pub data Provider : Type 0 where
  anthropic bedrock vertex : Provider

pub record Settings : Type 0 where
  pub environment : Environment
  pub demo_mode : Bool
  pub llm_provider : Provider
  pub anthropic_api_key : String
  pub aws_region : String
  pub vertex_project_id : String
  pub jwt_secret : String
  pub access_token_expire_minutes : ℕ
  pub mfa_pending_token_expire_minutes : ℕ
  pub login_max_failures : ℕ
  pub login_lockout_seconds : ℕ
  pub llm_model : String
  pub max_tokens_per_day : ℕ
  pub upload_max_bytes : ℕ
  pub hitl_confidence_threshold : Ratio
  pub top_k_retrieval : ℕ
  pub top_k_rerank : ℕ
  pub semantic_cache_ttl_seconds : ℕ

-- the defaults of the class
abbrev pub default_settings : Settings
default_settings = record {
  environment = Environment.development;
  demo_mode = false;
  llm_provider = Provider.anthropic;
  anthropic_api_key = "";
  aws_region = "";
  vertex_project_id = "";
  jwt_secret = "change-me-in-production";
  access_token_expire_minutes = 480;
  mfa_pending_token_expire_minutes = 15;
  login_max_failures = 5;
  login_lockout_seconds = 900;
  llm_model = "claude-sonnet-4-6";
  max_tokens_per_day = 100000;
  upload_max_bytes = 52428800;
  hitl_confidence_threshold = record { num = 75; den = 100 };
  top_k_retrieval = 12;
  top_k_rerank = 6;
  semantic_cache_ttl_seconds = 86400;
}

pub data ConfigError : Type 0 where
  aws_region_missing model_not_bedrock model_is_bedrock vertex_project_missing : ConfigError
  jwt_secret_insecure anthropic_api_key_missing : ConfigError

abbrev pub is_empty : String → Bool
is_empty s = str_eq s ""

-- the set _INSECURE_JWT_SECRETS
unfoldable pub is_insecure_secret : String → Bool
is_insecure_secret s =
    str_eq s ""
    || (str_eq s "change-me-in-production" || (str_eq s "secret" || str_eq s "changeme"))

abbrev pub is_bedrock_id : String → Bool
is_bedrock_id model = starts_with model "anthropic."

abbrev is_anthropic : Provider → Bool
is_anthropic Provider.anthropic = true
is_anthropic _ = false

guard_provider : Settings → Provider → Outcome ConfigError Settings
guard_provider s Provider.bedrock =
    if is_empty s.aws_region
    then err aws_region_missing
    else if is_bedrock_id s.llm_model
    then ok s
    else err model_not_bedrock
guard_provider s Provider.vertex =
    if is_bedrock_id s.llm_model
    then err model_is_bedrock
    else if is_empty s.vertex_project_id
    then err vertex_project_missing
    else ok s
guard_provider s Provider.anthropic =
    if is_bedrock_id s.llm_model then err model_is_bedrock else ok s

-- `_llm_provider_guards`
unfoldable pub llm_provider_guards : Settings → Outcome ConfigError Settings
unfolding guard_provider
llm_provider_guards s = guard_provider s s.llm_provider

guard_production : Settings → Environment → Provider → Outcome ConfigError Settings
unfolding is_insecure_secret
guard_production s Environment.production p =
    if is_insecure_secret s.jwt_secret || ltb (count s.jwt_secret) 32
    then err jwt_secret_insecure
    else if is_anthropic p && is_empty s.anthropic_api_key
    then err anthropic_api_key_missing
    else ok s
guard_production s _ p = ok s

-- `_production_guards`
unfoldable pub production_guards : Settings → Outcome ConfigError Settings
unfolding guard_production
production_guards s = guard_production s s.environment s.llm_provider

-- The two validators in the order in which pydantic runs them.
unfoldable pub validate : Settings → Outcome ConfigError Settings
unfolding llm_provider_guards production_guards
validate s = elim (llm_provider_guards s) [ ok t ↦ production_guards t | err e ↦ err e ]
