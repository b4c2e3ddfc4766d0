-- ===== src/Login/Sound.antt =====
-- What a sign-in proves about its caller, and what it leaves behind.
use pipe_line_gpt_backend.Prelude.{
  String, ◌≡◌, ◌≢◌, ◌⊎◌, inl, inr, refl, true, false, not, ◌&&◌, Option, none, some, List, [], ◌∷◌,
  find, str_eq, arith, Option-cases, Bool-cases,
}
use pipe_line_gpt_backend.Exec.{ok, err, HttpError, http, Outcome-cases, Run-cases}
use pipe_line_gpt_backend.Config.{Settings}
use pipe_line_gpt_backend.Models.{operator, User, active, Json, named, Request}
use pipe_line_gpt_backend.Access.{
  Crypto, TokenScope, full, mfa_setup, verify_password, hash_or_dummy, create_access_token,
}
use pipe_line_gpt_backend.Redis.{Redis}
use pipe_line_gpt_backend.RateLimit.{
  ensure_login_allowed, record_login_failure, clear_login_failures, claim_totp_code,
}
use pipe_line_gpt_backend.Accounts.{Accounts, audit_event, log_event}
use pipe_line_gpt_backend.Login.{
  LoginRequest, TokenResponse, requires_mfa, is_enrolled, verify_totp, authenticate, second_factor,
  reject_login, issue_token, login, is_setup, claim,
}

module _ (s : Settings) (c : Crypto) (r : Redis) where
  open r use {Store}

  -- what the password check has established
  record Known (q : Request) (body : LoginRequest) (a : Accounts Store) (u : User) : Type 0 where
    pub allowed : ensure_login_allowed s r c.lower q.now (c.lower body.email) q.ip a.redis ≡ ok tt
    pub in_table : find (λ v. str_eq v.email (c.lower body.email)) a.users ≡ some u
    pub password : c.checkpw body.password (hash_or_dummy c u.hashed_password) ≡ true
    pub is_active_user : u.status ≡ active

  authenticate-ok :
      (q : Request) (email pw : String) (a a' : Accounts Store) (u : User)
      → authenticate s c r q email pw a ≡ (ok u, a')
      → (a' ≡ a)
        × (find (λ v. str_eq v.email email) a.users ≡ some u)
        × (c.checkpw pw (hash_or_dummy c u.hashed_password) ≡ true)
  unfolding authenticate verify_password
  authenticate-ok q email pw a a' u h = ground arith

  -- How a sign-in ends up with the scope of its token, from the state before the code is claimed to
  -- the state after it.
  pub data SecondFactor (q : Request) (u : User) (code : Option String) (a a' : Accounts Store)
      : TokenScope → Type 0 where
    by_code :
        (t : String)
        → is_enrolled u ≡ true
        → code ≡ some t
        → verify_totp c q.now u t ≡ true
        → claim_totp_code s r q.now u.id t a.redis ≡ (a'.redis, true)
        → SecondFactor q u code a a' full
    not_needed :
        is_enrolled u ≡ false
        → (u.role ≡ operator) ⊎ ((s.demo_mode ≡ true) × (u.mfa_enabled ≡ true))
        → a' ≡ a
        → SecondFactor q u code a a' full
    enroll_first :
        is_enrolled u ≡ false
        → u.role ≢ operator
        → (s.demo_mode ≡ false) ⊎ (u.mfa_enabled ≡ false)
        → a' ≡ a
        → SecondFactor q u code a a' mfa_setup

  module _ (q : Request) (email : String) (u : User) (a a' : Accounts Store) (sc : TokenScope) where
    enrolled-ok :
        (code : Option String)
        → is_enrolled u ≡ true
        → second_factor s c r q email u code a ≡ (ok sc, a')
        → SecondFactor q u code a a' sc
    unfolding second_factor claim
    enrolled-ok none e h = absurd (ground arith)
    enrolled-ok (some t) e h =
        let full_scope : sc ≡ full = ground arith in
        rw full_scope (by_code t e refl (ground arith) (ground arith))

    unenrolled-ok :
        (code : Option String)
        → is_enrolled u ≡ false
        → second_factor s c r q email u code a ≡ (ok sc, a')
        → SecondFactor q u code a a' sc
    unfolding second_factor
    unenrolled-ok code e h =
        elim (Bool-cases (requires_mfa u.role && not (s.demo_mode && u.mfa_enabled))) [
          | inl b ↦
              let setup : sc ≡ mfa_setup = ground arith in
              rw setup (enroll_first e (λ op. ground arith) (ground arith) (ground arith))
          | inr b ↦
              let open_ : sc ≡ full = ground arith in
              rw open_ (not_needed e (ground arith) (ground arith))
        ]

    second_factor-users :
        (code : Option String)
        → second_factor s c r q email u code a ≡ (ok sc, a')
        → a'.users ≡ a.users
    unfolding second_factor claim
    second_factor-users none h = ground arith
    second_factor-users (some t) h = ground arith

    second_factor-ok :
        (code : Option String)
        → second_factor s c r q email u code a ≡ (ok sc, a')
        → SecondFactor q u code a a' sc
    second_factor-ok code h = elim (Bool-cases (is_enrolled u)) [
      | inl e ↦ enrolled-ok code e h
      | inr e ↦ unenrolled-ok code e h
    ]

  -- What a token proves: the caller was not locked out, named an active user by email and gave that
  -- user's password; the second factor decided the scope of the token; and the counter of the email
  -- was dropped last.
  pub record IsSignIn (q : Request) (body : LoginRequest) (a : Accounts Store)
      (resp : TokenResponse) (a' : Accounts Store) : Type 0 where
    pub user : User
    pub scope : TokenScope
    pub mid : Accounts Store
    pub allowed : ensure_login_allowed s r c.lower q.now (c.lower body.email) q.ip a.redis ≡ ok tt
    pub in_table : find (λ v. str_eq v.email (c.lower body.email)) a.users ≡ some user
    pub password : c.checkpw body.password (hash_or_dummy c user.hashed_password) ≡ true
    pub is_active_user : user.status ≡ active
    pub factor : SecondFactor q user body.totp_code a mid scope
    pub token : resp.access_token ≡ create_access_token s c q.now q.uuid user.id user.role scope
    pub setup : resp.mfa_setup_required ≡ is_setup scope
    pub cleared : a'.redis ≡ clear_login_failures s r c.lower q.now (c.lower body.email) mid.redis

  -- the rest of `login` once the user is known
  known-IsSignIn :
      (q : Request) (body : LoginRequest) (a a' : Accounts Store) (resp : TokenResponse) (u : User)
      → ensure_login_allowed s r c.lower q.now (c.lower body.email) q.ip a.redis ≡ ok tt
      → authenticate s c r q (c.lower body.email) body.password a ≡ (ok u, a)
      → login s c r q body a ≡ (ok resp, a')
      → IsSignIn q body a resp a'
  unfolding login issue_token
  known-IsSignIn q body a a' resp u allow auth h =
      elim (Run-cases (second_factor s c r q (c.lower body.email) u body.totp_code a)) [
        | inl (sc, mid, e) ↦ record {
          user = u;
          scope = sc;
          mid = mid;
          allowed = allow;
          in_table = (authenticate-ok q (c.lower body.email) body.password a a u auth).1;
          password = (authenticate-ok q (c.lower body.email) body.password a a u auth).2;
          is_active_user = ground arith;
          factor = second_factor-ok q (c.lower body.email) u a mid sc body.totp_code e;
          token = ground arith;
          setup = ground arith;
          cleared = ground arith;
        }
        | inr (x, mid, e) ↦ absurd (ground arith)
      ]

  -- A sign-in that returns a token was not locked out, named an active user by email and gave that
  -- user's password. An enrolled user gave a valid code that was not used before; an engineer or
  -- admin who is not enrolled gets a token of the enrollment scope only, save for the pre-flagged
  -- accounts of the demo mode; anyone else gets the full scope. The counter of the email is dropped.
  pub login-IsSignIn :
      (q : Request) (body : LoginRequest) (a a' : Accounts Store) (resp : TokenResponse)
      → login s c r q body a ≡ (ok resp, a')
      → IsSignIn q body a resp a'
  unfolding login
  login-IsSignIn q body a a' resp h =
      elim (Outcome-cases
        (ensure_login_allowed s r c.lower q.now (c.lower body.email) q.ip a.redis)) [
          | inl (un, allow) ↦
              (elim (Run-cases (authenticate s c r q (c.lower body.email) body.password a)) [
                | inl (u, mid, e) ↦
                    let same : mid ≡ a =
                      (authenticate-ok q (c.lower body.email) body.password a mid u e).0 in
                    known-IsSignIn q body a a' resp u allow (rw same at e) h
                | inr (x, mid, e) ↦ absurd (ground arith)
              ])
          | inr (x, e) ↦ absurd (ground arith)
        ]

  -- While the email or the address is locked out, sign-in raises the lockout's error whatever the
  -- password and the code, and changes nothing.
  pub login_locked :
      (q : Request) (body : LoginRequest) (a : Accounts Store) (e : HttpError)
      → ensure_login_allowed s r c.lower q.now (c.lower body.email) q.ip a.redis ≡ err e
      → login s c r q body a ≡ (err e, a)
  unfolding login
  login_locked q body a e h = ground arith

  -- the email is unknown, or the password is wrong
  abbrev pub IsBad : LoginRequest → List User → Type 0
  IsBad body us =
      (u : User)
      → find (λ v. str_eq v.email (c.lower body.email)) us ≡ some u
      → c.checkpw body.password (hash_or_dummy c u.hashed_password) ≡ false

  -- past the lockout such a sign-in is rejected
  login_bad_credentials :
      (q : Request) (body : LoginRequest) (a : Accounts Store)
      → ensure_login_allowed s r c.lower q.now (c.lower body.email) q.ip a.redis ≡ ok tt
      → IsBad body a.users
      → login s c r q body a ≡ (
        err (http 401 "Invalid credentials"),
        record a {
          redis = record_login_failure s r c.lower q.now (c.lower body.email) q.ip a.redis;
          audit_events =
              log_event
                (audit_event q "USER_LOGIN_FAILED" none
                  (some (named (c.lower body.email)))
                  (some "user")
                  (("email", Json.text (c.lower body.email))
                    ∷ ("reason", Json.text "bad_credentials")
                    ∷ [])
                  q.ip)
                a.audit_events;
        },
      )
  unfolding login authenticate verify_password reject_login
  login_bad_credentials q body a allow bad =
      elim (Option-cases (find (λ v. str_eq v.email (c.lower body.email)) a.users)) [
        | inl e ↦ ground arith
        | inr (u, e) ↦ ground (arith, bad u e)
      ]

  -- Two tables of users in both of which the email of a sign-in is unknown or its password is wrong
  -- cannot be told apart by it: in both it raises the same error (the lockout's, or 401), and
  -- leaves the same counters in Redis and the same audit trail; neither table changes.
  pub login_unknown_or_wrong :
      (q : Request) (body : LoginRequest) (a : Accounts Store) (others : List User)
      → IsBad body a.users
      → IsBad body others
      → let (end, a') = login s c r q body a in
        ((e : HttpError) × (end ≡ err e))
        × (a'.users ≡ a.users)
        × (login s c r q body (record a { users = others }) ≡ (end, record a' { users = others }))
  login_unknown_or_wrong q body a others bad bad' =
      let b : Accounts Store = record a { users = others } in
      elim (Outcome-cases
        (ensure_login_allowed s r c.lower q.now (c.lower body.email) q.ip a.redis)) [
          | inl (un, allow) ↦
              let ends = login_bad_credentials q body a allow bad in
              let ends' = login_bad_credentials q body b allow bad' in
              rw (ends, ends') ((_, refl), refl, refl)
          | inr (e, locked) ↦
              let ends = login_locked q body a e locked in
              let ends' = login_locked q body b e locked in rw (ends, ends') ((e, refl), refl, refl)
        ]
