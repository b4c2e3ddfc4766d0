-- ===== src/RateLimit/Lockout.antt =====
-- Repeated failures lock an email out.
use pipe_line_gpt_backend.Prelude.{
  ℕ, ◌+◌, ◌≤◌, ◌<◌, String, ◌≡◌, refl, ap, ◌∙◌, true, Option, none, some, List, [], ◌∷◌, length,
  arith, eq_refl, str_eq, Bool-cases, inl, inr, ◌-◌,
}
use pipe_line_gpt_backend.Exec.{err}
use pipe_line_gpt_backend.Config.{Settings}
use pipe_line_gpt_backend.Redis.{Redis, Entry, Key, login_email, live, bumped, expiring}
use pipe_line_gpt_backend.RateLimit.{
  record_login_failure, count_failure, ensure_login_allowed, ip_keys,
}

module _ (s : Settings) (r : Redis) (lower : String → String) (email : String) where
  open r use {Store, entry, incrby, expire, entry-incrby, entry-expire, entry-later}

  abbrev key : Key
  key = login_email (lower email)

  -- The keys of the address leave the counter of the email alone.
  entry-ip_keys :
      (st : Store) (u : ℕ) (ip : Option String)
      → entry (count_failure s r u (ip_keys s r ip) st) u key ≡ entry st u key
  unfolding count_failure
  entry-ip_keys st u none = refl
  entry-ip_keys st u (some a) = elim (Bool-cases (str_eq a "")) [
    | inl e ↦ rw (e, count_failure)
    | inr e ↦ rw (e, count_failure) (simp (entry-expire, entry-incrby))
  ]

  -- The counter of the email after one failed attempt.
  pub entry-record_login_failure :
      (st : Store) (u : ℕ) (ip : Option String)
      → entry (record_login_failure s r lower u email ip st) u key
        ≡ live u (expiring true (u + s.login_lockout_seconds) (bumped 1 (entry st u key)))
  unfolding record_login_failure count_failure
  entry-record_login_failure st u ip =
      entry-ip_keys _ u ip ∙ simp (entry-expire, entry-incrby, eq_refl)

  abbrev counted : ℕ → ℕ → Option Entry
  counted v d = some (record { value = v; deadline = some d })

  -- One failed attempt, at a time when the counter stands.
  step_counted :
      (st : Store) (t u v d : ℕ) (ip : Option String)
      → entry st t key ≡ counted v d
      → t ≤ u
      → u < d
      → entry (record_login_failure s r lower u email ip st) u key ≡ counted (v + 1) d
  step_counted st t u v d ip h le lt =
      entry-record_login_failure st u ip ∙ ground (arith, entry-later st t u key le)

  -- The failed attempts of a list, each with its time and its address.
  unfoldable pub failures : List (ℕ × Option String) → Store → Store
  failures [] st = st
  failures ((u, ip) ∷ rest) st = failures rest (record_login_failure s r lower u email ip st)

  -- The times of the attempts do not fall, start at `t` or later, and lie before `d`.
  abbrev pub Within : ℕ → ℕ → List (ℕ × Option String) → Type 0
  Within t d [] = Unit
  Within t d ((u, ip) ∷ rest) = (t ≤ u) × (u < d) × Within u d rest

  abbrev pub last_time : ℕ → List (ℕ × Option String) → ℕ
  last_time t [] = t
  last_time t ((u, ip) ∷ rest) = last_time u rest

  failures-counted :
      (tries : List (ℕ × Option String)) (st : Store) (t v d : ℕ)
      → entry st t key ≡ counted v d
      → Within t d tries
      → entry (failures tries st) (last_time t tries) key ≡ counted (v + length tries) d
  unfolding failures
  failures-counted [] st t v d h w = h ∙ ap (λ n. counted n d) (omega arith)
  failures-counted ((u, ip) ∷ rest) st t v d h w =
      failures-counted rest (record_login_failure s r lower u email ip st) u (v + 1) d
        (step_counted st t u v d ip h w.0 w.1) w.2
      ∙ ap (λ n. counted n d) (omega arith)

  -- A counter at the limit locks the email out.
  locked-ensure :
      (st : Store) (now v d : ℕ) (from : Option String)
      → entry st now key ≡ counted v d
      → now < d
      → s.login_max_failures ≤ v
      → ensure_login_allowed s r lower now email from st
        ≡ err (record {
          code = 429;
          detail = "Too many failed sign-in attempts. Try again later.";
          retry_after = some (d - now);
        })
  unfolding ensure_login_allowed
  locked-ensure st now v d from h early enough = ground arith

  -- After the first failure of an email at time `t`, whose counter was not there, and `n` more within
  -- the lockout window (which is not empty), every check of the email before the window ends raises 429 with the seconds
  -- that are left if `n + 1` is at least the limit; from the end of the window on the counter is gone.
  pub failures-lock :
      (st : Store) (t : ℕ) (ip : Option String) (tries : List (ℕ × Option String)) (now : ℕ)
      (from : Option String)
      → 0 < s.login_lockout_seconds
      → entry st t key ≡ none
      → Within t (t + s.login_lockout_seconds) tries
      → last_time t tries ≤ now
      → let st' = failures ((t, ip) ∷ tries) st in
        (s.login_max_failures ≤ length tries + 1
          → now < t + s.login_lockout_seconds
          → ensure_login_allowed s r lower now email from st'
            ≡ err (record {
              code = 429;
              detail = "Too many failed sign-in attempts. Try again later.";
              retry_after = some (t + s.login_lockout_seconds - now);
            }))
        × (t + s.login_lockout_seconds ≤ now → entry st' now key ≡ none)
  unfolding failures
  failures-lock st t ip tries now from pos h w le =
      let d : ℕ = t + s.login_lockout_seconds in
      let first : entry (record_login_failure s r lower t email ip st) t key ≡ counted 1 d =
        entry-record_login_failure st t ip ∙ ground arith in
      let all_counted =
        failures-counted tries (record_login_failure s r lower t email ip st) t 1 d first w in
      let last =
        entry-later (failures tries (record_login_failure s r lower t email ip st))
          (last_time t tries) now key le in
      (
        λ enough early.
            locked-ensure _ now (1 + length tries) d from (ground arith) early (omega arith),
        λ over. ground arith,
      )
