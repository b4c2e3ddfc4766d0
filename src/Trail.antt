-- ===== src/Trail.antt =====
-- backend/app/routers/audit.py: who reads which events of the audit trail. The caller has passed
-- `RequireEngineer`. The database's order by time is the argument `newest` or `oldest`.
use pipe_line_gpt_backend.Prelude.{
  ℕ, ◌-◌, ◌*◌, String, Bool, false, not, ◌&&◌, Option, none, some, List, [], ◌∷◌, any, select, map,
  take, drop, length, str_eq, ◌==◌, if◌then◌else◌, take_chars,
}
use Prim.Native.String.{◌++◌ as str_append}
use pipe_line_gpt_backend.Models.{User, engineer, AuditEvent}
use pipe_line_gpt_backend.Access.{role_eq}

-- ADMIN_ONLY_EVENT_TYPES
abbrev pub admin_only_event_types : List String
admin_only_event_types =
    "USER_LOGIN" ∷ "USER_LOGIN_FAILED" ∷ "USER_MFA_RESET" ∷ "USER_INVITED" ∷ "USER_INVITED_ACCEPTED"
    ∷ "USER_MFA_ENROLLED" ∷ "CONFIG_CHANGE" ∷ []

unfoldable pub is_admin_only : String → Bool
is_admin_only event_type = any (str_eq event_type) admin_only_event_types

-- LEGACY_EVENT_ALIASES
abbrev pub legacy_event_aliases : List (String × String)
legacy_event_aliases =
    ("HITL_APPROVE", "HITL_APPROVED")
    ∷ ("HITL_EDIT", "HITL_EDITED")
    ∷ ("HITL_REJECT", "HITL_REJECTED")
    ∷ []

abbrev alias_in : List (String × String) → String → String
alias_in [] event_type = event_type
alias_in ((old, name) ∷ rest) event_type =
    if str_eq old event_type then name else alias_in rest event_type

unfoldable pub canonical_event_type : String → String
canonical_event_type event_type = alias_in legacy_event_aliases event_type

-- `_stored_names`
unfoldable pub stored_names : String → List String
stored_names event_type =
    event_type ∷ map (λ p. p.0) (select (λ p. str_eq p.1 event_type) legacy_event_aliases)

-- the signs that a spreadsheet reads as the start of a formula
abbrev pub formula_signs : List String
formula_signs = "=" ∷ "+" ∷ "-" ∷ "@" ∷ "\t" ∷ "\r" ∷ []

-- `_csv_safe` of a text
unfoldable pub csv_safe : String → String
unfolding take_chars
csv_safe text = if any (str_eq (take_chars 1 text)) formula_signs then str_append "'" text else text

-- the filters of a query; an empty text is no filter
abbrev given : Option String → Option String
given none = none
given (some t) = if str_eq t "" then none else some t

-- the rows that the role of the caller may see
unfoldable pub allowed_events : User → List AuditEvent → List AuditEvent
allowed_events user trail =
    if role_eq user.role engineer
    then select (λ e. not (is_admin_only e.event_type)) trail
    else trail

unfoldable pub of_type : Option String → List AuditEvent → List AuditEvent
of_type none trail = trail
of_type (some t) trail = select (λ e. any (str_eq e.event_type) (stored_names t)) trail

abbrev has_actor : ℕ → AuditEvent → Bool
has_actor id e = elim e.actor_id [ none ↦ false | some a ↦ a == id ]

unfoldable pub of_actor : Option ℕ → List AuditEvent → List AuditEvent
of_actor none trail = trail
of_actor (some id) trail = select (has_actor id) trail

pub record AuditList : Type 0 where
  pub total : ℕ
  pub items : List AuditEvent

-- an engineer who asks for a type that only admins see
abbrev asks_admin_only : User → Option String → Bool
asks_admin_only user none = false
asks_admin_only user (some t) = role_eq user.role engineer && is_admin_only t

abbrev canonical : AuditEvent → AuditEvent
canonical e = record e { event_type = canonical_event_type e.event_type }

unfoldable pub list_audit_events :
    (newest : List AuditEvent → List AuditEvent) (page page_size : ℕ) (event_type : Option String)
    (actor_id : Option ℕ)
    → User
    → List AuditEvent
    → AuditList
unfolding allowed_events of_type of_actor
list_audit_events newest page page_size event_type actor_id user trail =
    let rows = of_actor actor_id (of_type (given event_type) (allowed_events user trail)) in
    if asks_admin_only user (given event_type) then record { total = 0; items = [] } else record {
      total = length rows;
      items = map canonical (take page_size (drop ((page - 1) * page_size) (newest rows)));
    }

-- the events of `export_audit_csv`, before they are written as lines
unfoldable pub exported_events :
    (oldest : List AuditEvent → List AuditEvent)
    → Option String
    → User
    → List AuditEvent
    → List AuditEvent
unfolding allowed_events of_type
exported_events oldest event_type user trail =
    let asked = if asks_admin_only user (given event_type) then none else given event_type in
    oldest (of_type asked (allowed_events user trail))
