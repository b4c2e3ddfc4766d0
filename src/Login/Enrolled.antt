-- ===== src/Login/Enrolled.antt =====
-- Enrollment ends with a user who signs in with a code, and shows one secret until it does.
use pipe_line_gpt_backend.Prelude.{
  ℕ, String, ◌≡◌, ◌≢◌, refl, true, false, some, find, update_where, find-update_where, ◌==◌, ==_iff,
  arith, Bool-cases, inl, inr,
}
use pipe_line_gpt_backend.Exec.{ok}
use pipe_line_gpt_backend.Config.{Settings}
use pipe_line_gpt_backend.Models.{User, operator, Request}
use pipe_line_gpt_backend.Access.{Crypto}
use pipe_line_gpt_backend.Redis.{Redis}
use pipe_line_gpt_backend.RateLimit.{claim_totp_code}
use pipe_line_gpt_backend.Accounts.{Accounts}
use pipe_line_gpt_backend.Login.{is_enrolled, is_set, verify_totp, verify_and_claim}
use pipe_line_gpt_backend.Login.Enroll.{mfa_setup, mfa_verify, MfaSetupResponse}

module _ (s : Settings) (c : Crypto) (r : Redis) where
  open r use {Store}

  -- A verified enrollment was for an engineer or an admin who was not enrolled, by a code that is
  -- valid for the stored secret and was not used before; afterwards the row is enrolled.
  pub mfa_verify-ok :
      (q : Request) (u : User) (code : String) (a a' : Accounts Store)
      → find (λ v. v.id == u.id) a.users ≡ some u
      → mfa_verify s c r q u code a ≡ (ok tt, a')
      → (u.role ≢ operator)
        × (is_enrolled u ≡ false)
        × (verify_totp c q.now u code ≡ true)
        × ((claim_totp_code s r q.now u.id code a.redis).1 ≡ true)
        × ((u' : User) × (find (λ v. v.id == u.id) a'.users ≡ some u')
            × (is_enrolled u' ≡ true)
            × (u'.mfa_secret ≡ u.mfa_secret))
  unfolding mfa_verify verify_and_claim
  mfa_verify-ok q u code a a' row h = (
    λ e. ground arith,
    ground arith,
    ground arith,
    ground arith,
    let f : User → User = λ v. record v { mfa_enabled = true } in
        let saved : a'.users ≡ update_where (λ v. v.id == u.id) f a.users = ground arith in
        (
          f u,
          rw saved (
              find-update_where (λ v. v.id == u.id) (λ v. v.id == u.id) f a.users u (λ v. refl) row
                ((==_iff u.id u.id).1 refl)),
          ground arith,
          refl,
        ),
  )

  -- Asking for the secret twice, with no verification between, gives the same secret and the second
  -- call changes nothing. Assumed of pyotp: the secrets that it draws are not empty.
  pub mfa_setup_again :
      (q q' : Request) (u : User) (a a' : Accounts Store) (resp : MfaSetupResponse)
      → ((n : ℕ) → is_set (some (c.random_base32 n)) ≡ true)
      → find (λ v. v.id == u.id) a.users ≡ some u
      → mfa_setup s c r q u a ≡ (ok resp, a')
      → (u' : User) × (find (λ v. v.id == u.id) a'.users ≡ some u')
        × (is_set u'.mfa_secret ≡ true)
        × (mfa_setup s c r q' u' a' ≡ (ok resp, a'))
  unfolding mfa_setup
  mfa_setup_again q q' u a a' resp random row h = elim (Bool-cases (is_set u.mfa_secret)) [
    | inl e ↦ let same : a' ≡ a = ground arith in (u, rw same row, e, ground arith)
    | inr e ↦
        let f : User → User =
          λ v. record v { mfa_secret = some (c.random_base32 q.uuid); mfa_enabled = false } in
        let saved : a'.users ≡ update_where (λ v. v.id == u.id) f a.users = ground arith in
        (
          f u,
          rw saved (
              find-update_where (λ v. v.id == u.id) (λ v. v.id == u.id) f a.users u (λ v. refl) row
                ((==_iff u.id u.id).1 refl)),
          random q.uuid,
          ground (arith, random q.uuid),
        )
  ]
