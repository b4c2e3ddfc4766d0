-- ===== src/Login.antt =====
-- backend/app/routers/auth.py: sign-in and the enrollment of authenticator apps.
pub mod Sound
pub mod Enroll
pub mod Enrolled
use pipe_line_gpt_backend.Prelude.{
  ℕ, String, Bool, true, false, not, ◌&&◌, ◌||◌, Option, none, some, List, [], ◌∷◌, find, any,
  str_eq, if◌then◌else◌,
}
use pipe_line_gpt_backend.Exec.{
  Exec, Outcome, ok, err, HttpError, http, pure, raise, raise_if, gets, modify, lift, ◌>>=◌, ◌>>◌,
}
use pipe_line_gpt_backend.Config.{Settings}
use pipe_line_gpt_backend.Models.{
  Role, operator, engineer, admin, User, Json, Target, id_of, named, Request,
}
use pipe_line_gpt_backend.Access.{
  Crypto, TokenScope, full, mfa_setup, verify_password, is_active, create_access_token,
}
use pipe_line_gpt_backend.Redis.{Redis}
use pipe_line_gpt_backend.RateLimit.{
  ensure_login_allowed, record_login_failure, clear_login_failures, claim_totp_code,
}
use pipe_line_gpt_backend.Accounts.{Accounts, audit_event, log_event, update_user, audit}

pub record LoginRequest : Type 0 where
  pub email : String
  pub password : String
  pub totp_code : Option String

pub record TokenResponse : Type 0 where
  pub access_token : String
  pub mfa_setup_required : Bool

-- `role in MFA_REQUIRED_ROLES`
abbrev pub requires_mfa : Role → Bool
requires_mfa operator = false
requires_mfa engineer = true
requires_mfa admin = true

-- Python's truth of an optional text
abbrev pub is_set : Option String → Bool
is_set none = false
is_set (some t) = not (str_eq t "")

unfoldable pub is_enrolled : User → Bool
is_enrolled u = u.mfa_enabled && is_set u.mfa_secret

abbrev check_totp : Crypto → ℕ → String → Option String → Bool
check_totp c now code none = false
check_totp c now code (some secret) = not (str_eq secret "") && c.totp now secret code

-- `_verify_totp`
unfoldable pub verify_totp : Crypto → ℕ → User → String → Bool
verify_totp c now u code = check_totp c now code u.mfa_secret

-- the flag `mfa_setup_required` beside its scope
abbrev pub is_setup : TokenScope → Bool
is_setup full = false
is_setup mfa_setup = true

module _ (s : Settings) (c : Crypto) (r : Redis) where
  open r use {Store}

  abbrev pub Handler : Type 0 → Type 0
  Handler A = Exec (Accounts Store) HttpError A

  abbrev pub with_redis : (Store → Store) → Handler (Unit {0})
  with_redis f = modify (λ a. record a { redis = f a.redis })

  -- `_reject_login`
  unfoldable pub reject_login : {A : Type 0} → Request → String → String → HttpError → Handler A
  reject_login q email reason detail = do
    with_redis (record_login_failure s r c.lower q.now email q.ip)
    modify (
        audit (
          audit_event q "USER_LOGIN_FAILED" none (some (named email)) (some "user")
            (("email", Json.text email) ∷ ("reason", Json.text reason) ∷ []) q.ip))
    raise detail

  abbrev hash_of : Option User → Option String
  hash_of none = none
  hash_of (some u) = some u.hashed_password

  abbrev invalid_credentials : HttpError
  invalid_credentials = http 401 "Invalid credentials"

  -- after `verify_password` has passed the row is there
  abbrev found_or_reject : Request → String → Bool → Option User → Handler User
  found_or_reject q email true (some u) = pure u
  found_or_reject q email _ _ = reject_login q email "bad_credentials" invalid_credentials

  -- the select of the user and the check of the password
  unfoldable pub authenticate : Request → String → String → Handler User
  unfolding reject_login
  authenticate q email password = do
    row ← gets (λ a. find (λ u. str_eq u.email email) a.users)
    found_or_reject q email (verify_password c password (hash_of row)) row

  -- `claim_totp_code` as a step of the handler
  unfoldable pub claim : Request → User → String → Handler Bool
  claim q u code a =
      let (st, won) = claim_totp_code s r q.now u.id code a.redis in
      (ok won, record a { redis = st })

  -- `not _verify_totp(...) or not await claim_totp_code(...)`: a code that fails is not claimed
  unfoldable pub verify_and_claim : Request → User → String → Handler Bool
  unfolding claim
  verify_and_claim q u code = if verify_totp c q.now u code then claim q u code else pure false

  abbrev mfa_invalid : HttpError
  mfa_invalid = http 401 "mfa_invalid"

  abbrev accept_code : Request → String → Bool → Handler TokenScope
  accept_code q email true = pure full
  accept_code q email false = reject_login q email "bad_totp" mfa_invalid

  abbrev check_code : Request → String → User → Option String → Handler TokenScope
  check_code q email u none = raise (http 401 "mfa_required")
  check_code q email u (some code) =
      if str_eq code ""
      then raise (http 401 "mfa_required")
      else (do done ← verify_and_claim q u code; accept_code q email done)

  -- The second factor: the scope of the token that sign-in ends with.
  unfoldable pub second_factor : Request → String → User → Option String → Handler TokenScope
  unfolding reject_login verify_and_claim is_enrolled
  second_factor q email u totp_code =
      if is_enrolled u
      then check_code q email u totp_code
      else if requires_mfa u.role && not (s.demo_mode && u.mfa_enabled)
      then pure mfa_setup
      else pure full

  -- the end of `login`: the counter of the email is dropped, and the token is made
  unfoldable pub issue_token : Request → String → User → TokenScope → Handler TokenResponse
  issue_token q email u scope = do
    with_redis (clear_login_failures s r c.lower q.now email)
    modify (update_user u.id (λ v. record v { last_login = some q.now }))
    modify (
        audit (
          audit_event q "USER_LOGIN" (some u.id) (some (id_of u.id)) (some "user")
            (("email", Json.text u.email) ∷ ("mfa_setup_required", Json.flag (is_setup scope)) ∷ [])
            q.ip))
    pure (record {
      access_token = create_access_token s c q.now q.uuid u.id u.role scope;
      mfa_setup_required = is_setup scope;
    })

  unfoldable pub login : Request → LoginRequest → Handler TokenResponse
  login q body = do
    let email = c.lower body.email
    st ← gets (λ a. a.redis)
    _ ← lift (ensure_login_allowed s r c.lower q.now email q.ip st)
    u ← authenticate q email body.password
    raise_if (not (is_active u.status)) (http 403 "Account suspended. Contact your administrator.")
    scope ← second_factor q email u body.totp_code
    issue_token q email u scope
