-- ===== src/Access.antt =====
-- backend/app/middleware/auth.py: passwords, access tokens and the checks that a route runs on the
-- caller. bcrypt, pyotp and jose are not in this repository: `Crypto` holds their functions.
pub mod Scopes
use pipe_line_gpt_backend.Prelude.{
  ℕ, ◌+◌, ◌*◌, String, ◌≡◌, Bool, true, false, not, ◌&&◌, Option, none, some, List, [], ◌∷◌, find,
  any, ◌==◌, str_eq, if◌then◌else◌,
}
use pipe_line_gpt_backend.Exec.{Outcome, ok, err, HttpError, http}
use pipe_line_gpt_backend.Config.{Settings}
use pipe_line_gpt_backend.Models.{Role, operator, engineer, admin, UserStatus, active, User}

pub data TokenScope : Type 0 where
  full mfa_setup : TokenScope

-- The claims of a token. A token of another issuer may lack `scope`, or hold a `sub` that is no
-- uuid: both are `none`.
pub record Payload : Type 0 where
  pub sub : Option ℕ
  pub role : Role
  pub scope : Option TokenScope
  pub iat : ℕ
  pub exp : ℕ
  pub jti : ℕ

-- `checkpw plain hashed` of bcrypt; `totp now secret code` is pyotp's check with a window of one
-- step; `jwt_encode secret claims` and `jwt_decode secret now token` are jose's, where `none` is a
-- JWTError; `lower` is str.lower.
pub record Crypto : Type 0 where
  pub hashpw : String → String
  pub checkpw : String → String → Bool
  pub dummy_hash : String
  pub totp : ℕ → String → String → Bool
  pub random_base32 : ℕ → String
  pub jwt_encode : String → Payload → String
  pub jwt_decode : String → ℕ → String → Option Payload
  pub lower : String → String

-- `hashed or _DUMMY_HASH`: an empty hash counts as none
abbrev pub hash_or_dummy : Crypto → String → String
hash_or_dummy c hashed = if str_eq hashed "" then c.dummy_hash else hashed

unfoldable pub verify_password : Crypto → String → Option String → Bool
verify_password c plain none = c.checkpw plain c.dummy_hash && false
verify_password c plain (some hashed) = c.checkpw plain (hash_or_dummy c hashed) && true

abbrev pub scope_eq : TokenScope → TokenScope → Bool
scope_eq full full = true
scope_eq mfa_setup mfa_setup = true
scope_eq _ _ = false

-- the dictionary `payload` of `create_access_token`
abbrev pub token_claims : Settings → (now jti sub : ℕ) → Role → TokenScope → Payload
token_claims s now jti sub role scope =
    let minutes =
      if scope_eq scope full
      then s.access_token_expire_minutes
      else s.mfa_pending_token_expire_minutes in
    record {
      sub = some sub;
      role = role;
      scope = some scope;
      iat = now;
      exp = now + minutes * 60;
      jti = jti;
    }

unfoldable pub create_access_token :
    Settings → Crypto → (now jti sub : ℕ) → Role → TokenScope → String
create_access_token s c now jti sub role scope =
    c.jwt_encode s.jwt_secret (token_claims s now jti sub role scope)

abbrev pub unauthorized : String → HttpError
unauthorized detail = http 401 detail

unfoldable pub decode_token : Settings → Crypto → ℕ → String → Outcome HttpError Payload
decode_token s c now token = elim (c.jwt_decode s.jwt_secret now token) [
  | none ↦ err (unauthorized "Invalid or expired token")
  | some p ↦ ok p
]

abbrev pub is_active : UserStatus → Bool
is_active active = true
is_active _ = false

abbrev scope_in : Option TokenScope → List TokenScope → Bool
scope_in none allowed = false
scope_in (some s) allowed = any (scope_eq s) allowed

-- the branch on a scope that the route does not accept
abbrev wrong_scope : Option TokenScope → HttpError
wrong_scope (some mfa_setup) = http 403 "MFA enrollment required"
wrong_scope _ = unauthorized "Invalid or expired token"

abbrev check_user : Option User → Outcome HttpError User
check_user none = err (unauthorized "User not found")
check_user (some u) = if is_active u.status then ok u else err (http 403 "Account is not active")

abbrev lookup_sub : List User → Option ℕ → Outcome HttpError User
lookup_sub users none = err (unauthorized "Invalid or expired token")
lookup_sub users (some id) = check_user (find (λ u. u.id == id) users)

abbrev with_payload :
    List User → List TokenScope → Outcome HttpError Payload → Outcome HttpError User
with_payload users allowed (err e) = err e
with_payload users allowed (ok p) =
    if scope_in p.scope allowed then lookup_sub users p.sub else err (wrong_scope p.scope)

-- `_resolve_user`
unfoldable pub resolve_user :
    Settings → Crypto → List User → ℕ → Option String → List TokenScope → Outcome HttpError User
unfolding decode_token
resolve_user s c users now none allowed = err (unauthorized "Not authenticated")
resolve_user s c users now (some token) allowed =
    with_payload users allowed (decode_token s c now token)

unfoldable pub get_current_user :
    Settings → Crypto → List User → ℕ → Option String → Outcome HttpError User
unfolding resolve_user
get_current_user s c users now credentials = resolve_user s c users now credentials (full ∷ [])

unfoldable pub get_user_allow_mfa_setup :
    Settings → Crypto → List User → ℕ → Option String → Outcome HttpError User
unfolding resolve_user
get_user_allow_mfa_setup s c users now credentials =
    resolve_user s c users now credentials (full ∷ mfa_setup ∷ [])

abbrev pub role_eq : Role → Role → Bool
role_eq operator operator = true
role_eq engineer engineer = true
role_eq admin admin = true
role_eq _ _ = false

abbrev insufficient : HttpError
insufficient = http 403 "Insufficient role"

abbrev check_role : List Role → Outcome HttpError User → Outcome HttpError User
check_role roles (err e) = err e
check_role roles (ok u) = if any (role_eq u.role) roles then ok u else err insufficient

unfoldable pub require_role :
    List Role → Settings → Crypto → List User → ℕ → Option String → Outcome HttpError User
unfolding get_current_user
require_role roles s c users now credentials =
    check_role roles (get_current_user s c users now credentials)

-- RequireOperator, RequireEngineer, RequireAdmin
abbrev pub operator_roles : List Role
operator_roles = operator ∷ engineer ∷ admin ∷ []

abbrev pub engineer_roles : List Role
engineer_roles = engineer ∷ admin ∷ []

abbrev pub admin_roles : List Role
admin_roles = admin ∷ []
