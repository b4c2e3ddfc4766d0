-- ===== src/Invites.antt =====
-- backend/app/routers/admin.py and the invitations of backend/app/routers/auth.py: accounts are made
-- by invitation, and an admin suspends users and resets their authenticator apps. The caller has
-- passed `RequireAdmin`; `actor` is the caller's row. A new row is put first in its table: no query
-- of the source relies on the order of rows that it does not sort.
pub mod Accepted
pub mod Guarded
use Prim.Native.String.{◌++◌ as str_append}
use pipe_line_gpt_backend.Prelude.{
  if◌then◌else◌, ◌*◌, ℕ, ◌+◌, String, Bool, true, false, not, ◌&&◌, Option, none, some, List, [],
  ◌∷◌, find, select, ltb, update_where, str_eq, ◌==◌,
}
use pipe_line_gpt_backend.Exec.{
  Exec, Outcome, ok, err, HttpError, http, pure, raise, raise_if, gets, modify, lift, ◌>>=◌, ◌>>◌,
}
use pipe_line_gpt_backend.Models.{
  Role, UserStatus, active, pending, suspended, User, Invitation, Json, id_of, named, Request,
}
use pipe_line_gpt_backend.Access.{Crypto}
use pipe_line_gpt_backend.Accounts.{Accounts, audit_event, update_user, audit}

-- `scalar_one_or_none` of a query that no unique column limits: sqlalchemy raises
-- MultipleResultsFound on two rows, which the server answers with 500.
abbrev pub scalar_one_or_none : {A : Type 0} → List A → Outcome HttpError (Option A)
scalar_one_or_none [] = ok none
scalar_one_or_none (x ∷ []) = ok (some x)
scalar_one_or_none (x ∷ y ∷ rest) = err (http 500 "Internal Server Error")

abbrev pub is_some : {A : Type 0} → Option A → Bool
is_some none = false
is_some (some x) = true

abbrev pub is_none : {A : Type 0} → Option A → Bool
is_none none = true
is_none (some x) = false

-- an invitation that was not used and has not expired
abbrev pub is_pending : ℕ → Invitation → Bool
is_pending now i = is_none i.accepted_at && ltb now i.expires_at

abbrev pub email_taken : String → List User → Bool
email_taken email users = is_some (find (λ u. str_eq u.email email) users)

-- `value` as the status of a user, for the audit trail
abbrev status_text : UserStatus → String
status_text active = "ACTIVE"
status_text pending = "PENDING"
status_text suspended = "SUSPENDED"

abbrev role_text : Role → String
role_text Role.operator = "OPERATOR"
role_text Role.engineer = "ENGINEER"
role_text Role.admin = "ADMIN"

module _ (c : Crypto) (Store : Type 0) where
  abbrev pub Handler : Type 0 → Type 0
  Handler A = Exec (Accounts Store) HttpError A

  -- `create_invitation`; `token` is what secrets.token_urlsafe drew.
  unfoldable pub create_invitation : Request → User → String → Role → String → Handler Invitation
  create_invitation q actor email role token = do
    taken ← gets (λ a. email_taken (c.lower email) a.users)
    raise_if taken
        (http 409 (str_append "A user with email " (str_append email " already exists.")))
    rows ←
        gets (λ a. select (λ i. str_eq i.email (c.lower email) && is_pending q.now i) a.invitations)
    existing ← lift (scalar_one_or_none rows)
    raise_if (is_some existing)
        (http 409 (str_append "An active invitation for " (str_append email " already exists.")))
    let invite : Invitation = record {
      id = q.uuid;
      email = c.lower email;
      role = role;
      token = token;
      invited_by_id = some actor.id;
      expires_at = q.now + 48 * 3600;
      accepted_at = none;
      created_at = q.now;
    }
    modify (λ a. record a { invitations = invite ∷ a.invitations })
    modify (
        audit (
          audit_event q "USER_INVITED" (some actor.id) (some (named (c.lower email)))
            (some "invitation")
            (("email", Json.text email) ∷ ("role", Json.text (role_text role)) ∷ []) q.ip))
    pure invite

  -- `list_invitations`, without its order
  unfoldable pub list_invitations : Request → Handler (List Invitation)
  list_invitations q = gets (λ a. select (is_pending q.now) a.invitations)

  -- the checks of `accept_invite` on the row of the token
  abbrev usable : Request → Option Invitation → Outcome HttpError Invitation
  usable q none = err (http 404 "Invitation not found or already used.")
  usable q (some i) =
      if is_some i.accepted_at
      then err (http 409 "This invitation has already been accepted.")
      else if ltb i.expires_at q.now
      then err (http 410 "Invitation has expired. Request a new one from your administrator.")
      else ok i

  abbrev new_user : Request → Invitation → String → User
  new_user q i password = record {
    id = q.uuid;
    email = c.lower i.email;
    hashed_password = c.hashpw password;
    role = i.role;
    status = active;
    preferred_lang = "en";
    mfa_enabled = false;
    mfa_secret = none;
    created_at = q.now;
    last_login = none;
  }

  unfoldable pub accept_invite : Request → (token password : String) → Handler User
  accept_invite q token password = do
    row ← gets (λ a. find (λ i. str_eq i.token token) a.invitations)
    invite ← lift (usable q row)
    taken ← gets (λ a. email_taken invite.email a.users)
    raise_if taken (http 409 "An account with this email already exists.")
    let user = new_user q invite password
    modify (λ a. record a {
      users = user ∷ a.users;
      invitations =
          update_where (λ i. i.id == invite.id) (λ i. record i { accepted_at = some q.now })
            a.invitations;
    })
    modify (
        audit (
          audit_event q "USER_INVITED_ACCEPTED" (some user.id) (some (id_of user.id)) (some "user")
            (("email", Json.text invite.email) ∷ ("role", Json.text (role_text invite.role)) ∷ [])
            q.ip))
    pure user

  abbrev found_user : Option User → Outcome HttpError User
  found_user none = err (http 404 "User not found.")
  found_user (some u) = ok u

  -- `update_user_status`
  unfoldable pub update_user_status : Request → User → ℕ → UserStatus → Handler (Unit {0})
  update_user_status q actor user_id status = do
    row ← gets (λ a. find (λ u. u.id == user_id) a.users)
    user ← lift (found_user row)
    raise_if (user.id == actor.id) (http 400 "Cannot change your own account status.")
    modify (update_user user.id (λ v. record v { status = status }))
    modify (
        audit (
          audit_event q "USER_STATUS_CHANGED" (some actor.id) (some (id_of user.id)) (some "user")
            (("email", Json.text user.email)
              ∷ ("old_status", Json.text (status_text user.status))
              ∷ ("new_status", Json.text (status_text status))
              ∷ [])
            q.ip))

  -- `reset_user_mfa`
  unfoldable pub reset_user_mfa : Request → User → ℕ → Handler (Unit {0})
  reset_user_mfa q actor user_id = do
    row ← gets (λ a. find (λ u. u.id == user_id) a.users)
    user ← lift (found_user row)
    raise_if (user.id == actor.id) (http 400 "Ask another admin to reset your MFA.")
    modify (update_user user.id (λ v. record v { mfa_enabled = false; mfa_secret = none }))
    modify (
        audit (
          audit_event q "USER_MFA_RESET" (some actor.id) (some (id_of user.id)) (some "user")
            (("email", Json.text user.email) ∷ []) q.ip))
