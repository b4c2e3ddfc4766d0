-- ===== src/Tests/Audit.antt =====
-- Runs of the settings' guards and of the audit endpoint.
use pipe_line_gpt_backend.Prelude.{String, ◌≡◌, ◌↔◌, refl, none, some, List, [], ◌∷◌}
use pipe_line_gpt_backend.Exec.{ok, err}
use pipe_line_gpt_backend.Config.{
  default_settings, Environment, Provider, validate, llm_provider_guards, production_guards,
  is_insecure_secret, jwt_secret_insecure,
}
use pipe_line_gpt_backend.Config.Guarded.{ProviderIsSet, SecretsAreSet, validate_iff}
use pipe_line_gpt_backend.Models.{AuditEvent}
use pipe_line_gpt_backend.Trail.{
  list_audit_events, is_admin_only, canonical_event_type, stored_names, allowed_events, of_type,
  of_actor,
}
use pipe_line_gpt_backend.Tests.Fixtures.{ann}

-- The defaults start a development server, and no production server.
defaults :
    (validate default_settings ≡ ok default_settings)
    × (validate (record default_settings { environment = Environment.production })
        ≡ err jwt_secret_insecure)
unfolding validate llm_provider_guards production_guards is_insecure_secret
defaults = (refl, refl)

validate_iff_example : (validate default_settings ≡ ok default_settings) ↔ (
    ProviderIsSet default_settings Provider.anthropic
    × SecretsAreSet default_settings Environment.development)
validate_iff_example = validate_iff default_settings

abbrev event : String → AuditEvent
event t = record {
  id = 1;
  event_type = t;
  actor_id = some 7;
  target_id = none;
  target_type = none;
  payload_json = [];
  ip_address = none;
  created_at = 1;
}

abbrev trail : List AuditEvent
trail = event "USER_LOGIN" ∷ event "HITL_EDIT" ∷ event "QUERY_COMPLETED" ∷ []

-- What ann, an engineer, is shown of edits.
edits :
    (list_audit_events (λ es. es) 1 50 (some "HITL_EDITED") none ann trail).items
    ≡ event "HITL_EDITED" ∷ []
unfolding list_audit_events allowed_events of_type of_actor is_admin_only stored_names
    canonical_event_type
edits = refl
