-- ===== src/Login/Enroll.antt =====
-- backend/app/routers/auth.py: GET /auth/mfa/setup and POST /auth/mfa/verify. The caller has passed
-- `get_user_allow_mfa_setup`; `u` is the caller's row.
use pipe_line_gpt_backend.Prelude.{String, Bool, true, false, not, Option, some, [], ◌∷◌}
use pipe_line_gpt_backend.Exec.{http, pure, raise_if, modify, ◌>>=◌, ◌>>◌}
use pipe_line_gpt_backend.Config.{Settings}
use pipe_line_gpt_backend.Models.{User, Json, id_of, Request}
use pipe_line_gpt_backend.Access.{Crypto}
use pipe_line_gpt_backend.Redis.{Redis}
use pipe_line_gpt_backend.Accounts.{audit_event, update_user, audit}
use pipe_line_gpt_backend.Login.{Handler, requires_mfa, is_set, is_enrolled, verify_and_claim}

-- the secret that is shown to the user
pub record MfaSetupResponse : Type 0 where
  pub secret : Option String

module _ (s : Settings) (c : Crypto) (r : Redis) where
  open r use {Store}

  -- A user with no secret gets one; one that is set already is shown again.
  abbrev show_secret : Request → User → Bool → Handler s c r MfaSetupResponse
  show_secret q u true = pure (record { secret = u.mfa_secret })
  show_secret q u false = do
    modify (
        update_user u.id
          (λ v. record v { mfa_secret = some (c.random_base32 q.uuid); mfa_enabled = false }))
    pure (record { secret = some (c.random_base32 q.uuid) })

  unfoldable pub mfa_setup : Request → User → Handler s c r MfaSetupResponse
  unfolding is_enrolled
  mfa_setup q u = do
    raise_if (not (requires_mfa u.role)) (http 403 "Insufficient role")
    raise_if (is_enrolled u) (http 400 "MFA is already enrolled.")
    show_secret q u (is_set u.mfa_secret)

  unfoldable pub mfa_verify : Request → User → String → Handler s c r (Unit {0})
  unfolding is_enrolled
  mfa_verify q u code = do
    raise_if (not (requires_mfa u.role)) (http 403 "Insufficient role")
    raise_if (is_enrolled u) (http 400 "MFA is already enrolled.")
    raise_if (not (is_set u.mfa_secret))
        (http 400 "MFA setup not initiated. Call /auth/mfa/setup first.")
    done ← verify_and_claim s c r q u code
    raise_if (not done) (http 400 "Invalid code. Try again.")
    modify (update_user u.id (λ v. record v { mfa_enabled = true }))
    modify (
        audit (
          audit_event q "USER_MFA_ENROLLED" (some u.id) (some (id_of u.id)) (some "user")
            (("email", Json.text u.email) ∷ []) q.ip))
