-- ===== src/Tests/Signin.antt =====
-- Runs of the checks of a caller, of the rate limits and of sign-in.
use pipe_line_gpt_backend.Prelude.{
  ◌+◌, ℕ, ◌≤◌, ◌<◌, String, ◌≡◌, ◌≢◌, ◌↔◌, refl, ap, sym, true, false, Option, none, some, List, [],
  ◌∷◌, any, arith, str_eq, find, ◌==◌,
}
use pipe_line_gpt_backend.Exec.{ok, err, HttpError, http}
use pipe_line_gpt_backend.Config.{default_settings}
use pipe_line_gpt_backend.Models.{User, operator, engineer, Request}
use pipe_line_gpt_backend.Access.{
  full, mfa_setup, resolve_user, get_current_user, get_user_allow_mfa_setup, require_role,
  decode_token, create_access_token, engineer_roles, role_eq, verify_password, hash_or_dummy,
}
use pipe_line_gpt_backend.Access.Scopes.{
  IsSession, require_role-IsSession, create_access_token-resolve,
}
use pipe_line_gpt_backend.Redis.{login_email}
use pipe_line_gpt_backend.RateLimit.{ensure_login_allowed, first_locked, claim_totp_code}
use pipe_line_gpt_backend.RateLimit.Lockout.{failures, failures-lock}
use pipe_line_gpt_backend.RateLimit.Budget.{token_budget_spent, exhausted}
use pipe_line_gpt_backend.RateLimit.{token_budget_dependency, record_token_usage}
use pipe_line_gpt_backend.RateLimit.SingleUse.{claim_totp_code_once}
use pipe_line_gpt_backend.Accounts.{Accounts}
use pipe_line_gpt_backend.Login.{
  LoginRequest, TokenResponse, login, authenticate, second_factor, verify_and_claim, verify_totp,
  claim, reject_login, issue_token, is_enrolled,
}
use pipe_line_gpt_backend.Login.Sound.{IsSignIn, login-IsSignIn, login_unknown_or_wrong}
use pipe_line_gpt_backend.Login.Enroll.{mfa_verify}
use pipe_line_gpt_backend.Login.Enrolled.{mfa_verify-ok}
use pipe_line_gpt_backend.Tests.Fixtures.{memory, Memory, nothing_stored, ann, toy_crypto}

require_role-IsSession_example :
    IsSession default_settings toy_crypto (ann ∷ []) 1500 (full ∷ []) (some "full") ann
    × (any (role_eq ann.role) engineer_roles ≡ true)
unfolding require_role get_current_user resolve_user decode_token
require_role-IsSession_example =
    require_role-IsSession default_settings toy_crypto (ann ∷ []) 1500 engineer_roles (some "full")
      ann refl

create_access_token-resolve_example :
    get_user_allow_mfa_setup default_settings toy_crypto (ann ∷ []) 1500 (some "setup") ≡ ok ann
    × (get_current_user default_settings toy_crypto (ann ∷ []) 1500 (some "setup")
        ≡ err (http 403 "MFA enrollment required"))
unfolding create_access_token
create_access_token-resolve_example =
    create_access_token-resolve default_settings toy_crypto (ann ∷ []) 1000 1500 1 ann mfa_setup
      refl refl refl

claim_totp_code_once_example :
    let st = (claim_totp_code default_settings memory 50 7 "123456" nothing_stored).0 in
    claim_totp_code default_settings memory 80 7 "123456" st ≡ (st, false)
unfolding claim_totp_code
claim_totp_code_once_example =
    claim_totp_code_once default_settings memory 50 80 7 "123456" nothing_stored refl (omega arith)
      (omega arith)

abbrev tries : List (ℕ × Option String)
tries = (110, none) ∷ (120, some "10.0.0.1") ∷ (120, none) ∷ (300, none) ∷ []

failures-lock_example :
    let st =
      failures default_settings memory toy_crypto.lower "ann@example.com"
        ((100, none) ∷ tries)
        nothing_stored in
    (5 ≤ 5
      → 400 < 1000
      → ensure_login_allowed default_settings memory toy_crypto.lower 400 "ann@example.com" none st
        ≡ err (record {
          code = 429;
          detail = "Too many failed sign-in attempts. Try again later.";
          retry_after = some 600;
        }))
    × (1000 ≤ 400 → memory.entry st 400 (login_email "ann@example.com") ≡ none)
failures-lock_example =
    failures-lock default_settings memory toy_crypto.lower "ann@example.com" nothing_stored 100 none
      tries 400 none (omega arith) refl
      (
        omega arith,
        omega arith,
        (omega arith, omega arith, (omega arith, omega arith, (omega arith, omega arith, tt))),
      )
      (omega arith)

abbrev accounts : Accounts Memory
accounts = record { users = ann ∷ []; invitations = []; audit_events = []; redis = nothing_stored }

abbrev request : Request
request = record { now = 1000; uuid = 1; event_uuid = 2; ip = some "10.0.0.1" }

abbrev with_code : LoginRequest
with_code = record {
  email = "ann@example.com";
  password = "correct horse";
  totp_code = some "123456";
}

abbrev signed_in : TokenResponse
signed_in = record { access_token = "full"; mfa_setup_required = false }

login-IsSignIn_example :
    IsSignIn default_settings toy_crypto memory request with_code accounts signed_in
      (login default_settings toy_crypto memory request with_code accounts).1
unfolding login authenticate second_factor verify_and_claim verify_totp claim reject_login
    issue_token is_enrolled verify_password ensure_login_allowed first_locked claim_totp_code
    create_access_token
login-IsSignIn_example =
    login-IsSignIn default_settings toy_crypto memory request with_code accounts
      (login default_settings toy_crypto memory request with_code accounts).1 signed_in refl

-- six failures of ann's email
abbrev failed : Accounts Memory
failed = record accounts {
  redis =
      failures default_settings memory toy_crypto.lower "ann@example.com"
        ((900, none) ∷ (901, none) ∷ (902, none) ∷ (903, none) ∷ (904, none) ∷ []) nothing_stored;
}

abbrev too_many : HttpError
too_many = record {
  code = 429;
  detail = "Too many failed sign-in attempts. Try again later.";
  retry_after = some 800;
}

abbrev wrong_password : LoginRequest
wrong_password = record with_code { password = "wrong" }

bad_for_all :
    (u : User)
    → find (λ v. str_eq v.email "ann@example.com") (ann ∷ []) ≡ some u
    → toy_crypto.checkpw "wrong" (hash_or_dummy toy_crypto u.hashed_password) ≡ false
bad_for_all u h =
    let same : ann ≡ u = cc in
    ap (λ v. toy_crypto.checkpw "wrong" (hash_or_dummy toy_crypto v.hashed_password)) (sym same)

bad_for_none :
    (u : User)
    → find (λ v. str_eq v.email "ann@example.com") [] ≡ some u
    → toy_crypto.checkpw "wrong" (hash_or_dummy toy_crypto u.hashed_password) ≡ false
bad_for_none u h = absurd (ground arith)

login_unknown_or_wrong_example :
    let (end, a') = login default_settings toy_crypto memory request wrong_password accounts in
    ((e : HttpError) × (end ≡ err e))
    × (a'.users ≡ ann ∷ [])
    × (login default_settings toy_crypto memory request wrong_password
          (record accounts { users = [] })
        ≡ (end, record a' { users = [] }))
login_unknown_or_wrong_example =
    login_unknown_or_wrong default_settings toy_crypto memory request wrong_password accounts []
      bad_for_all bad_for_none

-- ann before her enrollment, with a secret or without one
abbrev shown : User
shown = record ann { mfa_enabled = false }

abbrev fresh : User
fresh = record ann { mfa_enabled = false; mfa_secret = none }

abbrev enrolling : Accounts Memory
enrolling = record accounts { users = shown ∷ [] }

mfa_verify-ok_example :
    (engineer ≢ operator)
    × (is_enrolled shown ≡ false)
    × (verify_totp toy_crypto 1000 shown "123456" ≡ true)
    × ((claim_totp_code default_settings memory 1000 7 "123456" nothing_stored).1 ≡ true)
    × ((u' : User) × (find
            (λ v. v.id == 7)
            (mfa_verify default_settings toy_crypto memory request shown "123456" enrolling).1.users
          ≡ some u')
        × (is_enrolled u' ≡ true)
        × (u'.mfa_secret ≡ some "123456"))
unfolding mfa_verify verify_and_claim verify_totp claim is_enrolled claim_totp_code
mfa_verify-ok_example =
    mfa_verify-ok default_settings toy_crypto memory request shown "123456" enrolling
      (mfa_verify default_settings toy_crypto memory request shown "123456" enrolling).1 refl refl

abbrev unenrolled : Accounts Memory
unenrolled = record accounts { users = fresh ∷ [] }

token_budget_spent_example :
    (token_budget_dependency default_settings memory 200 7
        (record_token_usage default_settings memory 100 7 120000 nothing_stored)
      ≡ err (exhausted default_settings memory))
    ↔ (100000 ≤ 0 + 120000)
token_budget_spent_example =
    token_budget_spent default_settings memory 100 200 7 120000 nothing_stored (omega arith)
      (omega arith) refl
