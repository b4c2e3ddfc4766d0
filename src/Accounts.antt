-- ===== src/Accounts.antt =====
-- The tables that sign-in, enrollment and the invitations work on, beside the store of the rate
-- limits, and backend/app/services/audit_log.py, which appends to the audit trail.
use pipe_line_gpt_backend.Prelude.{ℕ, String, Option, List, [], ◌∷◌, ◌++◌, update_where, ◌==◌}
use pipe_line_gpt_backend.Models.{User, Invitation, AuditEvent, Target, Payload, Request}

pub record Accounts (Store : Type 0) : Type 0 where
  pub users : List User
  pub invitations : List Invitation
  pub audit_events : List AuditEvent
  pub redis : Store

-- `log_event`: one more event at the end; the others stay.
abbrev pub audit_event :
    Request
    → String
    → Option ℕ
    → Option Target
    → Option String
    → Payload
    → Option String
    → AuditEvent
audit_event q event_type actor target target_type payload ip = record {
  id = q.event_uuid;
  event_type = event_type;
  actor_id = actor;
  target_id = target;
  target_type = target_type;
  payload_json = payload;
  ip_address = ip;
  created_at = q.now;
}

abbrev pub log_event : AuditEvent → List AuditEvent → List AuditEvent
log_event e trail = trail ++ e ∷ []

-- A change to the row of one user.
abbrev pub update_user : {Store : Type 0} → ℕ → (User → User) → Accounts Store → Accounts Store
update_user id f a = record a { users = update_where (λ v. v.id == id) f a.users }

-- `log_event` on the state
abbrev pub audit : {Store : Type 0} → AuditEvent → Accounts Store → Accounts Store
audit e a = record a { audit_events = log_event e a.audit_events }
